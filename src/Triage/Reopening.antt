-- ===== src/Triage/Reopening.antt =====
-- The aggregator does not look at whether the open decision was resolved in the meantime.
use argus_services.Prelude.{
  ℕ, ◌≤◌, true, false, ◌≡◌, refl, ap, arith, leb, some, [], ◌∷◌, ◌++◌, Bool-cases, inl, inr, ◌∙◌,
  subst, sym,
}
use argus_services.Exec.{Result, ok, pure}
use argus_services.Exec.Triple.{Post, Post-ok, Post-mono, bind_returns, continue-Post}
use argus_services.Domain.Enums.{DecisionState, state_eq, state_eq_sound}
use argus_services.Domain.Json.{uuid_text}
use argus_services.Domain.Models.{Decision, Evidence, Tenant}
use argus_services.World.{World}
use argus_services.World.Redis.{KeyStore}
use argus_services.World.Session.{Context}
use argus_services.Events.{EventSettings}
use argus_services.Aggregation.Decisions.{
  Draws, write_transition, compute_state, get_tenant, get_decision, is_linked, link_of,
  add_evidence, change_record,
}
use argus_services.Aggregation.Saving.{get-save_decision, get_decision-passes}
use argus_services.Aggregation.Transitions.{Announced, emit_effects}
use argus_services.Aggregation.Windows.{key_of, named}
use argus_services.Aggregation.Repeats.{find_again}
use argus_services.Aggregation.{
  link_evidence, find_open, merge_into, merge_or_create_decision, load_tenant, aggregate_evidence,
  apply_state_transitions,
}
use argus_services.Triage.{is_resolved}

compute_state_unresolved : (d : Decision) (t : Tenant) → is_resolved (compute_state d t) ≡ false
unfolding compute_state
compute_state_unresolved d t = ground arith

module _ {K : KeyStore} where
  -- The decision with an id, as it is returned and as a session then reads it.
  abbrev pub IsStored : Context → ℕ → Decision → World K → Type 0
  IsStored o id x v = (x.id ≡ id) × (get_decision o id v.db ≡ some x)

  link-IsStored :
      (Q : Decision → Type 0) (o c : Context) (s : Draws) (d : Decision) (e : Evidence)
      (w : World K)
      → get_decision o d.id w.db ≡ some d
      → (is_linked c d e w.db ≡ true → Q d)
      → Q (add_evidence s.now d e)
      → Post
          (λ x v. IsStored o d.id x v × Q x)
          (link_evidence c s d e w).0
          (link_evidence c s d e w).1
  unfolding link_evidence
  link-IsStored Q o c s d e w hd was now = elim (Bool-cases (is_linked c d e w.db)) [
    | inl old ↦ rw old ((refl, hd), was old)
    | inr new ↦ rw new (
      (
        refl,
        get-save_decision o d.id (add_evidence s.now d e) (get_decision-passes o d.id w.db hd).0
            refl w.db (record w.db { links = w.db.links ++ link_of d e ∷ [] }) refl hd,
      ),
      now,
    )
  ]

  get-write_transition :
      (c : Context) (id : ℕ) (s : Draws) (d : Decision) (new : DecisionState) (w : World K)
      → IsStored c id d w
      → get_decision c id (write_transition s d new w.db)
        ≡ some (record d { state = new; updated_at = s.now })
  unfolding write_transition
  get-write_transition c id s d new w h =
      get-save_decision c id (record d { state = new; updated_at = s.now })
        (get_decision-passes c id w.db h.1).0 h.0 w.db
        (record w.db { audit = w.db.audit ++ change_record s d new ∷ [] }) refl h.1

  transitions-IsStored :
      (Q : Decision → Type 0) (S : EventSettings) (s : Draws) (o : Context) (id : ℕ) (t : Tenant)
      (d : Decision) (w : World K)
      → IsStored o id d w
      → (compute_state d t ≡ d.state → Q d)
      → Q (record d { state = compute_state d t; updated_at = s.now })
      → Post
          (λ x v. IsStored o id x v × Q x)
          (apply_state_transitions S s d t w).0
          (apply_state_transitions S s d t w).1
  unfolding apply_state_transitions
  transitions-IsStored Q S s o id t d w h was now =
      elim (Bool-cases (state_eq (compute_state d t) d.state)) [
        | inl same ↦ rw same (h, was (state_eq_sound _ _ same))
        | inr changed ↦ rw changed (
            continue-Post (λ _ (v : World K). v.db ≡ written.db) (λ x v. IsStored o id x v × Q x)
              (λ _. pure saved) _ _
              (λ _. record {
                run = λ v k. (
                  (h.0, ap (get_decision o id) k ∙ get-write_transition o id s d saved.state w h),
                  now,
                );
              })
              (Post-mono {P = λ _. Announced saved d.state saved.state written} _ _ (λ _ _ k. k.0)
                (emit_effects S saved d.state saved.state written)))
      ]
    where
      saved : Decision
      saved = record d { state = compute_state d t; updated_at = s.now }

      written : World K
      written = record w { db = write_transition s d saved.state w.db }

  merge-IsStored :
      (Q : Decision → Type 0) (o c : Context) (s : Draws) (e : Evidence) (t : Tenant) (d : Decision)
      (w : World K)
      → get_decision o d.id w.db ≡ some d
      → get_decision c d.id w.db ≡ some d
      → named (key_of e) w ≡ some (uuid_text d.id)
      → e.captured_at ≤ d.window_end
      → (is_linked c d e w.db ≡ true → Q d)
      → Q (add_evidence s.now d e)
      → Post
          (λ x v. IsStored o d.id x v × Q x)
          (merge_or_create_decision c s e t w).0
          (merge_or_create_decision c s e t w).1
  unfolding merge_or_create_decision merge_into
  merge-IsStored Q o c s e t d w ho hd hk he was now =
      let in_window : leb e.captured_at d.window_end ≡ true = ground arith in
      subst (λ (r : Result Decision × World K). Post (λ x v. IsStored o d.id x v × Q x) r.0 r.1)
        (sym (
          bind_returns (find_open c e) (merge_into c s e t) (find_again c e d w hk hd)
          ∙ rw in_window))
        (link-IsStored Q o c s d e w ho was now)

  -- What holds of the decision after its evidence and is kept by a transition holds after the run.
  pub aggregate_evidence-IsStored :
      (P Q : Decision → Type 0) (S : EventSettings) (s : Draws) (o c : Context) (e : Evidence)
      (t : Tenant) (d d' : Decision) (w : World K)
      → get_tenant c e.tenant_id w.db ≡ some t
      → get_decision o d.id w.db ≡ some d
      → get_decision c d.id w.db ≡ some d
      → named (key_of e) w ≡ some (uuid_text d.id)
      → e.captured_at ≤ d.window_end
      → (is_linked c d e w.db ≡ true → P d)
      → P (add_evidence s.now d e)
      → ((x : Decision) → P x → compute_state x t ≡ x.state → Q x)
      → ((x : Decision) → P x → Q (record x { state = compute_state x t; updated_at = s.now }))
      → (aggregate_evidence S s c e w).0 ≡ ok d'
      → IsStored o d.id d' (aggregate_evidence S s c e w).1 × Q d'
  unfolding aggregate_evidence load_tenant merge_or_create_decision merge_into
  aggregate_evidence-IsStored P Q S s o c e t d d' w ht ho hd hk he was now stays moves h =
      Post-ok (λ x v. IsStored o d.id x v × Q x) (aggregate_evidence S s c e w).0
        (aggregate_evidence S s c e w).1
        (rw ht (
          continue-Post (λ x v. IsStored o d.id x v × P x) (λ x v. IsStored o d.id x v × Q x)
            (λ x. apply_state_transitions S s x t) _ _
            (λ x. record {
              run = λ v p. transitions-IsStored Q S s o d.id t x v p.0 (stays x p.1) (moves x p.1);
            })
            (merge-IsStored P o c s e t d w ho hd hk he was now)))
        h

  -- The decision that the open key names takes the evidence of its window whatever its state, and is
  -- stored and returned in a state that is not resolved: if a watcher had resolved it, its row is open
  -- again.
  pub aggregate_evidence_reopens :
      (S : EventSettings) (s : Draws) (c : Context) (e : Evidence) (t : Tenant) (d d' : Decision)
      (w : World K)
      → get_tenant c e.tenant_id w.db ≡ some t
      → get_decision c d.id w.db ≡ some d
      → named (key_of e) w ≡ some (uuid_text d.id)
      → e.captured_at ≤ d.window_end
      → (aggregate_evidence S s c e w).0 ≡ ok d'
      → ((d'.id ≡ d.id) × (get_decision c d.id (aggregate_evidence S s c e w).1.db ≡ some d'))
        × (is_resolved d'.state ≡ false)
  aggregate_evidence_reopens S s c e t d d' w ht hd hk he h =
      aggregate_evidence-IsStored (λ _. Unit {0}) (λ x. is_resolved x.state ≡ false) S s c c e t d
        d' w ht hd hd hk he (λ _. tt) tt
        (λ x _ same. subst (λ y. is_resolved y ≡ false) same (compute_state_unresolved x t))
        (λ x _. compute_state_unresolved x t) h
