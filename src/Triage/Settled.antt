-- ===== src/Triage/Settled.antt =====
-- The rows of a decision that was resolved, through what is written later.
use argus_services.Prelude.{
  ℕ, String, true, false, ◌≡◌, ◌≢◌, refl, arith, some, List, [], ◌∷◌, ◌∙◌, subst, sym, Bool-cases,
  ◌⊎◌, inl, inr, Bool, ◌&&◌, ◌==◌, All, update, find?, is_some,
}
use argus_services.Exec.{Result, ok, raised}
use argus_services.Domain.Enums.{FeedbackDisposition, true_positive, false_positive, false_negative}
use argus_services.Domain.Models.{Decision}
use argus_services.World.{World, Db}
use argus_services.World.Redis.{KeyStore}
use argus_services.World.Session.{Context, allows}
use argus_services.Auth.{AuthContext}
use argus_services.Aggregation.Decisions.{get_decision, save_decision}
use argus_services.Events.{publish_ws_event}
use argus_services.Aggregation.Saving.{get_decision-passes}
use argus_services.Triage.{
  ResolveDecisionRequest, ResolveDecisionResponse, ResolveDraws, check_resolvable, resolve_checked,
  resolve_decision, write_resolution, is_resolved, disposition_to_state, resolved_decision,
  has_feedback,
}
use argus_services.Triage.Resolution.{resolve_checked_effects, check_resolvable_exactly}

disposition_resolves : (d : FeedbackDisposition) → is_resolved (disposition_to_state d) ≡ true
unfolding disposition_to_state
disposition_resolves true_positive = refl
disposition_resolves false_positive = refl
disposition_resolves false_negative = refl

-- One more resolution, of whichever decision and by whomever.
pub record Attempt : Type 0 where
  pub draws : ResolveDraws
  pub decision_id : ℕ
  pub body : ResolveDecisionRequest
  pub session : Context
  pub auth : AuthContext

-- The rows of a decision are of the tenant and resolved.
abbrev pub Settled : ℕ → ℕ → Decision → Type 0
Settled tenant_id id x = x.id ≡ id → (x.tenant_id ≡ tenant_id) × (is_resolved x.state ≡ true)

abbrev pub has_row : ℕ → List Decision → Bool
has_row id rows = is_some (find? (λ (x : Decision). x.id == id) rows)

-- A decision is settled: it is there, and only settled rows have its id.
abbrev pub IsSettled : ℕ → ℕ → Db → Type 0
IsSettled tenant_id id db =
    All (Settled tenant_id id) db.decisions × (has_row id db.decisions ≡ true)

module _ (tenant_id id : ℕ) where
  pub overwrite-Settled :
      (y : Decision) (rows : List Decision)
      → Settled tenant_id id y
      → y.id ≡ id
      → All (Settled tenant_id id) (update (λ (x : Decision). x.id == y.id) (λ _. y) rows)
  overwrite-Settled y [] h k = tt
  overwrite-Settled y (x ∷ xs) h k = (
    elim (Bool-cases (x.id == y.id)) [
      | inl hit ↦ rw hit h
      | inr miss ↦
          rw miss
            (λ same. (let no : x.id ≢ y.id = ground (arith, miss) in absurd (no (same ∙ sym k))))
    ],
    overwrite-Settled y xs h k,
  )

  pub update-Settled :
      (y : Decision) (rows : List Decision)
      → Settled tenant_id id y
      → All (Settled tenant_id id) rows
      → All (Settled tenant_id id) (update (λ (x : Decision). x.id == y.id) (λ _. y) rows)
  update-Settled y [] h k = tt
  update-Settled y (x ∷ xs) h k = (
    elim (Bool-cases (x.id == y.id)) [ inl hit ↦ rw hit h | inr miss ↦ rw miss k.0 ],
    update-Settled y xs h k.1,
  )

  pub update-has_row :
      (y : Decision) (rows : List Decision)
      → has_row id (update (λ (x : Decision). x.id == y.id) (λ _. y) rows) ≡ has_row id rows
  update-has_row y [] = refl
  update-has_row y (x ∷ xs) = elim (Bool-cases (x.id == y.id)) [
    | inl hit ↦
        (let same : (y.id == id) ≡ (x.id == id) = ground (arith, hit) in
          elim (Bool-cases (x.id == id)) [
            | inl here ↦ rw (hit, same, here) refl
            | inr there ↦ rw (hit, same, there) (update-has_row y xs)
          ])
    | inr miss ↦ elim (Bool-cases (x.id == id)) [
      | inl here ↦ rw (miss, here) refl
      | inr there ↦ rw (miss, there) (update-has_row y xs)
    ]
  ]

  pub found_row :
      (c : Context) (rows : List Decision) {d : Decision}
      → find? (λ (x : Decision). allows c x.tenant_id && (x.id == id)) rows ≡ some d
      → has_row id rows ≡ true
  found_row c [] h = cc
  found_row c (x ∷ xs) h = elim (Bool-cases (x.id == id)) [
    | inl here ↦ rw here refl
    | inr there ↦
        (let unread : (allows c x.tenant_id && (x.id == id)) ≡ false = ground (arith, there) in
          rw there (found_row c xs (rw unread at h)))
  ]

  -- Who may see the tenant reads a settled row.
  pub row_read :
      (c : Context) (rows : List Decision)
      → allows c tenant_id ≡ true
      → All (Settled tenant_id id) rows
      → has_row id rows ≡ true
      → (d : Decision) × (find? (λ (x : Decision). allows c x.tenant_id && (x.id == id)) rows
          ≡ some d)
        × (d.tenant_id ≡ tenant_id)
        × (is_resolved d.state ≡ true)
  row_read c [] visible h k = cc
  row_read c (x ∷ xs) visible h k = elim (Bool-cases (x.id == id)) [
    | inl here ↦
        (let same : x.id ≡ id = ground (arith, here) in
          let (of_tenant, resolved) = h.0 same in
          (x, rw (of_tenant, visible, here) refl, of_tenant, resolved))
    | inr there ↦
        (let unread : (allows c x.tenant_id && (x.id == id)) ≡ false = ground (arith, there) in
          let (d, found, of_tenant, resolved) = row_read c xs visible h.1 (rw there at k) in
          (d, rw unread found, of_tenant, resolved))
  ]

write-IsSettled :
    (s : ResolveDraws) (tenant_id id : ℕ) (d : Decision) (body : ResolveDecisionRequest)
    (sub : String) (db : Db)
    → d.tenant_id ≡ tenant_id
    → IsSettled tenant_id id db
    → IsSettled tenant_id id (write_resolution s tenant_id d body sub db)
unfolding write_resolution save_decision
write-IsSettled s tenant_id id d body sub db of_tenant h =
    let y = resolved_decision s d body sub in
    (
      update-Settled tenant_id id y db.decisions
          (λ _. (of_tenant, disposition_resolves body.disposition)) h.0,
      update-has_row tenant_id id y db.decisions ∙ h.1,
    )

module _ {K : KeyStore} where
  -- The resolutions, one after the other, each with the tables that the one before it left.
  abbrev pub attempt_all : ℕ → List Attempt → World K → World K
  attempt_all tenant_id [] w = w
  attempt_all tenant_id (a ∷ rest) w =
      attempt_all tenant_id rest
        (resolve_decision a.draws tenant_id a.decision_id a.body a.session a.auth w).1

  -- A resolution leaves the tables, or it writes a row that it found.
  checked_tables :
      (s : ResolveDraws) (tenant_id : ℕ) (body : ResolveDecisionRequest) (sub : String)
      (checked : Result Decision) (w : World K)
      → ((resolve_checked s tenant_id body sub checked w).1.db ≡ w.db)
        ⊎ ((d : Decision) × (checked ≡ ok d)
            × ((resolve_checked s tenant_id body sub checked w).1.db
                ≡ write_resolution s tenant_id d body sub w.db))
  unfolding resolve_checked publish_ws_event
  checked_tables s tenant_id body sub (raised e) w = inl refl
  checked_tables s tenant_id body sub (ok d) w = elim (Bool-cases (has_feedback d.id w.db)) [
    | inl twice ↦ inl (rw twice refl)
    | inr first ↦ inr (d, refl, rw first refl)
  ]

  resolve-IsSettled :
      (a : Attempt) (tenant_id id : ℕ) (w : World K)
      → IsSettled tenant_id id w.db
      → IsSettled tenant_id id
          (resolve_decision a.draws tenant_id a.decision_id a.body a.session a.auth w).1.db
  unfolding resolve_decision
  resolve-IsSettled a tenant_id id w h =
      elim (checked_tables a.draws tenant_id a.body a.auth.sub
        (check_resolvable tenant_id a.body (get_decision a.session a.decision_id w.db)) w) [
          | inl same ↦ subst (IsSettled tenant_id id) (sym same) h
          | inr wrote ↦
              (let facts = (check_resolvable_exactly tenant_id a.body _ wrote.0).0 wrote.1 in
                subst (IsSettled tenant_id id) (sym wrote.2)
                  (write-IsSettled a.draws tenant_id id wrote.0 a.body a.auth.sub w.db facts.1 h))
        ]

  pub attempt_all-IsSettled :
      (attempts : List Attempt) (tenant_id id : ℕ) (w : World K)
      → IsSettled tenant_id id w.db
      → IsSettled tenant_id id (attempt_all tenant_id attempts w).db
  attempt_all-IsSettled [] tenant_id id w h = h
  attempt_all-IsSettled (a ∷ rest) tenant_id id w h =
      attempt_all-IsSettled rest tenant_id id _ (resolve-IsSettled a tenant_id id w h)

  pub first-IsSettled :
      (s : ResolveDraws) (tenant_id id : ℕ) (body : ResolveDecisionRequest) (c : Context)
      (auth : AuthContext) (w : World K) (r : ResolveDecisionResponse)
      → (resolve_decision s tenant_id id body c auth w).0 ≡ ok r
      → IsSettled tenant_id id (resolve_decision s tenant_id id body c auth w).1.db
  unfolding resolve_decision write_resolution save_decision get_decision
  first-IsSettled s tenant_id id body c auth w r h =
      let (d, checked, _, written, _) = resolve_checked_effects s tenant_id body auth.sub _ w h in
      let (found, of_tenant, _, _) = (check_resolvable_exactly tenant_id body _ d).0 checked in
      let y = resolved_decision s d body auth.sub in
      subst (IsSettled tenant_id id) (sym written) (
        overwrite-Settled tenant_id id y w.db.decisions
            (λ _. (of_tenant, disposition_resolves body.disposition))
            (get_decision-passes c id w.db found).1,
        update-has_row tenant_id id y w.db.decisions
            ∙ found_row tenant_id id c w.db.decisions found,
      )
