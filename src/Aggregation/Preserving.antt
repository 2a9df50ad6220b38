-- ===== src/Aggregation/Preserving.antt =====
-- What an aggregation (runtime/src/argus/services/aggregation.py) needs of a property of the tables to
-- keep it, whatever its outcome.
use argus_services.Prelude.{
  [], ◌∷◌, ◌++◌, String, ℕ, ◌≡◌, refl, Option, none, some, arith, sym, leb, Bool-cases, inl, inr,
  subst,
}
use argus_services.Exec.Triple.{Post, Post-always, Triple, Triple-bind}
use argus_services.Domain.Enums.{DecisionState, state_eq, root_admin}
use argus_services.Domain.Models.{Evidence, Decision, Tenant}
use argus_services.Domain.Json.{Text, uuid_text, plain, truthy}
use argus_services.World.{World, Db}
use argus_services.World.Redis.{KeyStore, decision_open}
use argus_services.World.Session.{Context, no_context, set_session_context, tenant_session-keeps}
use argus_services.Events.{EventSettings, publish_ws_event, publish_event}
use argus_services.Aggregation.Decisions.{
  Draws, compute_state, save_decision, new_decision, add_evidence, link_of, write_transition,
  get_decision, get_evidence, is_linked,
}
use argus_services.Aggregation.{
  load_open, link_evidence, create_decision, find_open, start_decision, merge_into, or_not_found,
  load_evidence, load_tenant, aggregate_evidence, merge_or_create_decision, emit_state_change,
  apply_state_transitions, aggregate_block, aggregate,
}

-- A property of the tables, with what is known of the evidence before a decision is found, of a decision
-- that the evidence can be linked to, and of a decision after that.
pub record Preserving : Type 1 where
  pub Holds : Db → Type 0
  pub IsReady : Evidence → ℕ → Db → Type 0
  pub IsLinkable : Evidence → Decision → Db → Type 0
  pub IsSettled : Decision → Db → Type 0
  pub found :
      (c : Context) (e : Evidence) (new_id id : ℕ) (db : Db) (d : Decision)
      → IsReady e new_id db
      → get_decision c id db ≡ some d
      → IsLinkable e d db
  pub created :
      (s : Draws) (e : Evidence) (t : Tenant) (db : Db)
      → IsReady e s.decision_id db
      → IsLinkable e
          (new_decision s.now s.decision_id e t)
          (record db { decisions = db.decisions ++ new_decision s.now s.decision_id e t ∷ [] })
  pub kept : (e : Evidence) (d : Decision) (db : Db) → IsLinkable e d db → IsSettled d db
  pub linked :
      (now : ℕ) (e : Evidence) (d : Decision) (db : Db)
      → IsLinkable e d db
      → IsSettled (add_evidence now d e) (
          save_decision (add_evidence now d e) (record db { links = db.links ++ link_of d e ∷ [] }))
  pub settled : (d : Decision) (db : Db) → IsSettled d db → Holds db
  pub changed :
      (s : Draws) (d : Decision) (new : DecisionState) (db : Db)
      → IsSettled d db
      → Holds (write_transition s d new db)

module _ (P : Preserving) where
  abbrev FoundIsLinkable : Evidence → Option Decision → Db → Type 0
  FoundIsLinkable e none db = Unit
  FoundIsLinkable e (some d) db = P.IsLinkable e d db

  found-IsLinkable :
      (c : Context) (s : Draws) (e : Evidence) (id : ℕ) (db : Db) (found : Option Decision)
      → P.IsReady e s.decision_id db
      → get_decision c id db ≡ found
      → FoundIsLinkable e found db
  found-IsLinkable c s e id db none r h = tt
  found-IsLinkable c s e id db (some d) r h = P.found c e s.decision_id id db d r h

module _ (P : Preserving) {K : KeyStore} where
  abbrev ReadyWorld : Evidence → Draws → World K → Type 0
  ReadyWorld e s w = P.IsReady e s.decision_id w.db

  abbrev SettledWorld : Decision → World K → Type 0
  SettledWorld d w = P.IsSettled d w.db

  abbrev Kept : {A : Type 0} → A → World K → Type 0
  Kept _ w = P.Holds w.db

  link-Triple :
      (c : Context) (s : Draws) (d : Decision) (e : Evidence)
      → Triple (λ w. P.IsLinkable e d w.db) (link_evidence {K = K} c s d e) SettledWorld
  unfolding link_evidence
  link-Triple c s d e = record {
    run = λ w h. elim (Bool-cases (is_linked c d e w.db)) [
      | inl old ↦ rw old (P.kept e d w.db h)
      | inr new ↦ rw new (P.linked s.now e d w.db h)
    ];
  }

  start-Triple :
      (c : Context) (s : Draws) (e : Evidence) (t : Tenant)
      → Triple (ReadyWorld e s) (start_decision {K = K} c s e t) SettledWorld
  unfolding start_decision create_decision
  start-Triple c s e t = record {
    run = λ w r.
        (link-Triple c s (new_decision s.now s.decision_id e t) e).run _ (P.created s e t w.db r);
  }

  load_open-Ready :
      (c : Context) (s : Draws) (e : Evidence) (raw : Option Text) (w : World K)
      → ReadyWorld e s w
      → Post
          (λ found (v : World K). ReadyWorld e s v × FoundIsLinkable P e found v.db)
          (load_open c raw w).0
          (load_open c raw w).1
  unfolding load_open
  load_open-Ready c s e none w r = (r, tt)
  load_open-Ready c s e (some (uuid_text id)) w r =
      (r, found-IsLinkable P c s e id w.db (get_decision c id w.db) r refl)
  load_open-Ready c s e (some (plain text)) w r = elim (Bool-cases (truthy (plain text))) [
    | inl filled ↦ rw filled tt
    | inr empty ↦ rw empty (r, tt)
  ]

  find_open-Triple :
      (c : Context) (s : Draws) (e : Evidence)
      → Triple
          (ReadyWorld e s)
          (find_open {K = K} c e)
          (λ found w. ReadyWorld e s w × FoundIsLinkable P e found w.db)
  unfolding find_open
  find_open-Triple c s e = record {
    run = λ w r.
        load_open-Ready c s e
          (KeyStore.get_key K (decision_open e.tenant_id e.camera_id e.region_id) w.redis) w r;
  }

  merge_into-Triple :
      (c : Context) (s : Draws) (e : Evidence) (t : Tenant) (found : Option Decision)
      → Triple
          (λ w. ReadyWorld e s w × FoundIsLinkable P e found w.db)
          (merge_into {K = K} c s e t found)
          SettledWorld
  unfolding merge_into
  merge_into-Triple c s e t none = record { run = λ w r. (start-Triple c s e t).run w r.0 }
  merge_into-Triple c s e t (some d) = record {
    run = λ w r. elim (Bool-cases (leb e.captured_at d.window_end)) [
      | inl open_still ↦ rw open_still ((link-Triple c s d e).run w r.1)
      | inr closed ↦ rw closed ((start-Triple c s e t).run _ r.0)
    ];
  }

  merge-Triple :
      (c : Context) (s : Draws) (e : Evidence) (t : Tenant)
      → Triple (ReadyWorld e s) (merge_or_create_decision {K = K} c s e t) SettledWorld
  unfolding merge_or_create_decision
  merge-Triple c s e t =
      Triple-bind (λ found w. ReadyWorld e s w × FoundIsLinkable P e found w.db) _ _
        (find_open-Triple c s e) (merge_into-Triple c s e t)

  emit_db :
      (S : EventSettings) (d : Decision) (old new : DecisionState) (w : World K)
      → (emit_state_change S d old new w).1.db ≡ w.db
  unfolding emit_state_change publish_ws_event publish_event
  emit_db S d old new w = ground arith

  -- The events do not touch the tables.
  emit-Triple :
      (S : EventSettings) (d : Decision) (old new : DecisionState)
      → Triple (λ w. P.Holds w.db) (emit_state_change {K = K} S d old new) Kept
  emit-Triple S d old new = record {
    run = λ w h.
        Post-always (λ (v : World K). P.Holds v.db) _ _
          (subst P.Holds (sym (emit_db S d old new w)) h);
  }

  transitions-Triple :
      (S : EventSettings) (s : Draws) (t : Tenant) (d : Decision)
      → Triple (SettledWorld d) (apply_state_transitions {K = K} S s d t) Kept
  unfolding apply_state_transitions
  transitions-Triple S s t d = record {
    run = λ w h. elim (Bool-cases (state_eq (compute_state d t) d.state)) [
      | inl same ↦ rw same (P.settled d w.db h)
      | inr changed ↦ rw changed (
          (Triple-bind Kept _ _ (emit-Triple S _ d.state (compute_state d t))
              (λ _. record { run = λ v k. k })).run
            _ (P.changed s d (compute_state d t) w.db h))
    ];
  }

  or_not_found-Post :
      {A : Type 0} (Q : A → World K → Type 0) (msg : String) (found : Option A) (w : World K)
      → ((a : A) → found ≡ some a → Q a w)
      → Post Q (or_not_found msg found w).0 (or_not_found msg found w).1
  or_not_found-Post Q msg none w h = tt
  or_not_found-Post Q msg (some a) w h = h a refl

  load_tenant-Triple :
      (c : Context) (s : Draws) (e : Evidence) (id : ℕ)
      → Triple (ReadyWorld e s) (load_tenant {K = K} c id) (λ _. ReadyWorld e s)
  unfolding load_tenant
  load_tenant-Triple c s e id = record {
    run = λ w h. or_not_found-Post (λ _. ReadyWorld e s) _ _ w (λ _ _. h);
  }

  evidence-Triple :
      (S : EventSettings) (s : Draws) (c : Context) (e : Evidence)
      → Triple (ReadyWorld e s) (aggregate_evidence {K = K} S s c e) Kept
  unfolding aggregate_evidence
  evidence-Triple S s c e =
      Triple-bind (λ _. ReadyWorld e s) _ _ (load_tenant-Triple c s e e.tenant_id)
        λ t. Triple-bind SettledWorld _ _ (merge-Triple c s e t) (transitions-Triple S s t)

  -- A run keeps the property, whether it returns or raises, if every evidence that root reads is ready.
  pub aggregate-Holds :
      (S : EventSettings) (s : Draws) (id : ℕ) (w : World K)
      → P.Holds w.db
      → ((e : Evidence)
          → get_evidence (set_session_context no_context none (some root_admin)) id w.db ≡ some e
          → P.IsReady e s.decision_id w.db)
      → P.Holds (aggregate S s id w).1.db
  unfolding aggregate aggregate_block load_evidence
  aggregate-Holds S s id w h ready =
      tenant_session-keeps P.Holds none (some root_admin) (aggregate_block S s id) w
        ((Triple-bind {P = λ v. v ≡ w} (λ e. ReadyWorld e s) _ _
            (record {
              run = λ v same.
                  subst
                    (λ u.
                      Post (λ e. ReadyWorld e s) (load_evidence root id u).0
                        (load_evidence root id u).1)
                    (sym same) (or_not_found-Post (λ e. ReadyWorld e s) _ _ w ready);
            })
            (λ e. evidence-Triple S s _ e)).run
          w refl)
        h
    where
      root : Context
      root = set_session_context no_context none (some root_admin)
