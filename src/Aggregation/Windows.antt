-- ===== src/Aggregation/Windows.antt =====
-- Where a piece of evidence ends up: in a decision whose window has not ended, which the open key of
-- its camera and region names from then on.
use argus_services.Prelude.{
  ℕ, ◌≤◌, ◌==◌, ==_refl, ◌&&◌, ◌≡◌, refl, sym, subst, ◌∙◌, true, Option, none, some, [], ◌∷◌, ◌++◌,
  arith, leb, Bool-cases, inl, inr, find?-passes, find?-append_last,
}
use argus_services.Exec.{ok}
use argus_services.Exec.Triple.{Post, Post-ok, Triple, Triple-bind}
use argus_services.Domain.Json.{Text, uuid_text, plain, truthy}
use argus_services.Domain.Models.{Decision, Evidence, Tenant}
use argus_services.World.{World, Db}
use argus_services.World.Redis.{KeyStore, Key, decision_open, key_eq_refl}
use argus_services.World.Session.{Context, allows}
use argus_services.Aggregation.Decisions.{
  Draws, save_decision, get_decision, is_linked, link_of, add_evidence, new_decision,
}
use argus_services.Aggregation.{
  link_evidence, create_decision, open_key, load_open, find_open, start_decision, merge_into,
  merge_or_create_decision,
}

abbrev pub key_of : Evidence → Key
key_of e = decision_open e.tenant_id e.camera_id e.region_id

-- A link that was just added is found.
is_linked_added :
    (c : Context) (now : ℕ) (d : Decision) (e : Evidence) (db : Db)
    → allows c e.tenant_id ≡ true
    → is_linked c
        (add_evidence now d e)
        e
        (save_decision (add_evidence now d e) (record db { links = db.links ++ link_of d e ∷ [] }))
      ≡ true
unfolding is_linked save_decision
is_linked_added c now d e db a =
    find?-append_last
      (λ l. allows c l.tenant_id && (l.decision_id == d.id && l.evidence_id == e.id)) db.links
      (link_of d e) (rw (a, ==_refl d.id, ==_refl e.id))

module _ {K : KeyStore} where
  -- What the open key names.
  abbrev pub named : Key → World K → Option Text
  named k w = KeyStore.get_key K k w.redis

  -- The evidence is linked to the decision, the window of that has not ended when the evidence was
  -- captured, and the open key names it.
  abbrev pub Collected : Context → Evidence → Decision → World K → Type 0
  Collected c e d w =
      (is_linked c d e w.db ≡ true)
      × (e.captured_at ≤ d.window_end)
      × (named (key_of e) w ≡ some (uuid_text d.id))

  link-Collected :
      (c : Context) (s : Draws) (d : Decision) (e : Evidence) (w : World K)
      → allows c e.tenant_id ≡ true
      → e.captured_at ≤ d.window_end
      → named (key_of e) w ≡ some (uuid_text d.id)
      → Post (Collected c e) (link_evidence c s d e w).0 (link_evidence c s d e w).1
  unfolding link_evidence save_decision
  link-Collected c s d e w a h k = elim (Bool-cases (is_linked c d e w.db)) [
    | inl old ↦ rw old (old, h, k)
    | inr new ↦ rw new (is_linked_added c s.now d e w.db a, h, k)
  ]

  start-Collected :
      (c : Context) (s : Draws) (e : Evidence) (t : Tenant) (w : World K)
      → allows c e.tenant_id ≡ true
      → Post (Collected c e) (start_decision c s e t w).0 (start_decision c s e t w).1
  unfolding start_decision create_decision open_key
  start-Collected c s e t w a =
      link-Collected c s (new_decision s.now s.decision_id e t) e _ a (omega arith)
        (KeyStore.get-set K (key_of e) (key_of e) _ _ _ ∙ rw key_eq_refl)

  -- The open decision that was found is the one that the key names.
  abbrev FoundAt : Evidence → Option Decision → World K → Type 0
  FoundAt e none w = Unit
  FoundAt e (some d) w = named (key_of e) w ≡ some (uuid_text d.id)

  get_decision-FoundAt :
      (c : Context) (e : Evidence) (id : ℕ) (w : World K) (found : Option Decision)
      → get_decision c id w.db ≡ found
      → named (key_of e) w ≡ some (uuid_text id)
      → FoundAt e found w
  unfolding get_decision
  get_decision-FoundAt c e id w none h k = tt
  get_decision-FoundAt c e id w (some d) h k =
      let same : d.id ≡ id = ground (
        arith,
        find?-passes (λ (x : Decision). allows c x.tenant_id && (x.id == id)) w.db.decisions h,
      ) in
      subst (λ i. named (key_of e) w ≡ some (uuid_text i)) (sym same) k

  load_open-FoundAt :
      (c : Context) (e : Evidence) (raw : Option Text) (w : World K)
      → named (key_of e) w ≡ raw
      → Post (FoundAt e) (load_open c raw w).0 (load_open c raw w).1
  unfolding load_open
  load_open-FoundAt c e none w k = tt
  load_open-FoundAt c e (some (uuid_text id)) w k = get_decision-FoundAt c e id w _ refl k
  load_open-FoundAt c e (some (plain text)) w k = elim (Bool-cases (truthy (plain text))) [
    | inl filled ↦ rw filled tt
    | inr empty ↦ rw empty tt
  ]

  find_open-FoundAt :
      (c : Context) (e : Evidence) → Triple (λ (w : World K). Unit {0}) (find_open c e) (FoundAt e)
  unfolding find_open
  find_open-FoundAt c e = record { run = λ w _. load_open-FoundAt c e _ w refl }

  merge_into-Collected :
      (c : Context) (s : Draws) (e : Evidence) (t : Tenant) (found : Option Decision)
      → allows c e.tenant_id ≡ true
      → Triple (FoundAt e found) (merge_into {K = K} c s e t found) (Collected c e)
  unfolding merge_into
  merge_into-Collected c s e t none a = record { run = λ w _. start-Collected c s e t w a }
  merge_into-Collected c s e t (some d) a = record {
    run = λ w k. elim (Bool-cases (leb e.captured_at d.window_end)) [
      | inl still_open ↦ rw still_open (link-Collected c s d e w a (ground arith) k)
      | inr ended ↦ rw ended (start-Collected c s e t _ a)
    ];
  }

  -- A merge that returns `d`, in a session that may see the tenant of the evidence, has linked the
  -- evidence to `d`; the window of `d` had not ended when the evidence was captured; and from then on the
  -- open key of that camera and region names `d`.
  pub merge_or_create_decision-Collected :
      (c : Context) (s : Draws) (e : Evidence) (t : Tenant) (w : World K) (d : Decision)
      → allows c e.tenant_id ≡ true
      → (merge_or_create_decision c s e t w).0 ≡ ok d
      → Collected c e d (merge_or_create_decision c s e t w).1
  unfolding merge_or_create_decision
  merge_or_create_decision-Collected c s e t w d a h =
      Post-ok (Collected c e) _ _
        ((Triple-bind (FoundAt e) {R = Collected c e} (find_open c e) (merge_into c s e t)
            (find_open-FoundAt c e) (λ found. merge_into-Collected c s e t found a)).run
          w tt)
        h
