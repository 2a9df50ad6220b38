-- ===== src/Aggregation/Saving.antt =====
-- A saved decision is the one that the next read finds.
use argus_services.Prelude.{
  ℕ, ◌==◌, ==_refl, ◌&&◌, ◌≡◌, ap, ◌∙◌, arith, Bool, true, false, List, [], ◌∷◌, some, find?,
  find?-passes, update, Bool-cases, inl, inr,
}
use argus_services.Domain.Models.{Decision}
use argus_services.World.{Db}
use argus_services.World.Session.{Context, allows}
use argus_services.Aggregation.Decisions.{get_decision, save_decision}

module _ (c : Context) (id : ℕ) (d' : Decision) (visible : allows c d'.tenant_id ≡ true)
    (same : d'.id ≡ id) where
  abbrev is_read : Decision → Bool
  is_read x = allows c x.tenant_id && (x.id == id)

  find?-saved :
      (ds : List Decision) {d : Decision}
      → find? is_read ds ≡ some d
      → find? is_read (update (λ x. x.id == d'.id) (λ _. d') ds) ≡ some d'
  find?-saved [] h = cc
  find?-saved (x ∷ ds) h = elim (Bool-cases (x.id == d'.id)) [
    | inl hit ↦ rw hit (rw (visible, same, ==_refl id))
    | inr miss ↦
        let unread : is_read x ≡ false = ground (arith, miss, same) in
        rw (miss, unread) (find?-saved ds (rw unread at h))
  ]

  -- The write is read back, also when other tables were written before it.
  pub get-save_decision :
      (before db : Db) {d : Decision}
      → db.decisions ≡ before.decisions
      → get_decision c id before ≡ some d
      → get_decision c id (save_decision d' db) ≡ some d'
  unfolding get_decision save_decision
  get-save_decision before db rows h = find?-saved db.decisions (ap (find? is_read) rows ∙ h)

-- A decision that was read has the id that was asked for, and may be seen.
pub get_decision-passes :
    (c : Context) (id : ℕ) (db : Db) {d : Decision}
    → get_decision c id db ≡ some d
    → (allows c d.tenant_id ≡ true) × (d.id ≡ id)
unfolding get_decision
get_decision-passes c id db {d} h =
    ground
      (arith, find?-passes (λ (x : Decision). allows c x.tenant_id && (x.id == id)) db.decisions h)
