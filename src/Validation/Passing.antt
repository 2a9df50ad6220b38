-- ===== src/Validation/Passing.antt =====
-- runtime/scripts/validate_rls.py against the policies that the sessions of the model use.
use argus_services.Prelude.{
  count-none, count-never, count-always, ◌≡◌, ◌≤◌, refl, true, false, ◌&&◌, ◌==◌, ==_refl, [], ◌∷◌,
  count-append, length-append, ◌∙◌, All, All-mono, arith,
}
use argus_services.Domain.Models.{Market}
use argus_services.World.{Db}
use argus_services.World.Session.{allows, no_context, set_session_context}
use argus_services.Validation.{
  ValidationDraws, inserted_market, insert_rows, count_markets, context_a, context_root,
  check_counts, validate_rls,
}

module _ (d : ValidationDraws) (db : Db) where
  unseen_without_context : count_markets no_context (λ m. true) (insert_rows d db) ≡ 0
  unfolding count_markets allows
  unseen_without_context = count-never _ (insert_rows d db).markets (λ m. refl)

  others_unseen :
      (d.tenant_b == d.tenant_a) ≡ false
      → count_markets (context_a d) (λ m. m.tenant_id == d.tenant_b) (insert_rows d db) ≡ 0
  unfolding count_markets allows set_session_context
  others_unseen other = count-never _ (insert_rows d db).markets (λ m. ground (arith, other))

  own_seen :
      (d.tenant_b == d.tenant_a) ≡ false
      → All (λ (m : Market). (m.tenant_id == d.tenant_a) ≡ false) db.markets
      → count_markets (context_a d) (λ m. true) (insert_rows d db) ≡ 1
  unfolding count_markets allows set_session_context insert_rows
  own_seen other fresh =
      let p = λ (m : Market). (m.tenant_id == d.tenant_a) && true in
      count-append p db.markets _
      ∙ rw
          (
            count-none p db.markets (All-mono (λ m out. rw out refl) db.markets fresh),
            ==_refl d.tenant_a,
            other,
          )
          refl

  all_seen : 2 ≤ count_markets context_root (λ m. true) (insert_rows d db)
  unfolding count_markets allows set_session_context insert_rows
  all_seen =
      let all =
        count-always (λ (m : Market). allows context_root m.tenant_id && true)
          (insert_rows d db).markets (λ m. refl) in
      let two = length-append db.markets (
        inserted_market d.market_a d.tenant_a "Market A"
        ∷ inserted_market d.market_b d.tenant_b "Market B"
        ∷ []) in
      omega (arith, all, two)

  -- Whatever markets the database holds: with two new tenants, whose ids differ and the first of which has no
  -- market yet, the check passes.
  validate_rls-passes :
      (d.tenant_b == d.tenant_a) ≡ false
      → All (λ (m : Market). (m.tenant_id == d.tenant_a) ≡ false) db.markets
      → (validate_rls d db).0 ≡ 0
  unfolding validate_rls check_counts
  validate_rls-passes other fresh =
      rw (unseen_without_context, others_unseen other, own_seen other fresh)
        (ground (arith, all_seen))
