-- ===== src/Admin/Rules/Effects.antt =====
-- runtime/src/argus/api/admin/rules.py: the tables after a creation.
use argus_services.Prelude.{
  ℕ, ◌≡◌, refl, sym, ap, ◌∙◌, List, [], ◌∷◌, ◌++◌, map, append_assoc, append-nil, Bool-cases, inl,
  inr,
}
use argus_services.Exec.{ok, pure}
use argus_services.Exec.Triple.{Post, Post-ok, Post-mono, continue-Post}
use argus_services.Domain.Models.{ContextMode, RegionOfInterest}
use argus_services.World.{World, Db}
use argus_services.World.Redis.{KeyStore}
use argus_services.World.Session.{Context}
use argus_services.Admin.{is_of}
use argus_services.Admin.Modes.{get_mode}
use argus_services.Admin.Rules.{
  CreateRuleRequest, RuleResponse, RuleDraws, get_region, new_rule, new_mapping, response_of,
  is_mapped, map_region, map_regions, insert_rule, create_rule,
}

-- The tables with the mappings of a rule to regions.
abbrev pub with_mappings : RuleDraws → ℕ → List ℕ → Db → Db
with_mappings s tenant_id ids db = record db {
  rule_regions = db.rule_regions ++ map (new_mapping s tenant_id) ids;
}

abbrev pub with_rule : RuleDraws → ℕ → CreateRuleRequest → Db → Db
with_rule s tenant_id body db =
    with_mappings s tenant_id body.region_ids
      (record db { rules = db.rules ++ new_rule s.rule_id tenant_id body ∷ [] })

module _ {K : KeyStore} (s : RuleDraws) (tenant_id : ℕ) (c : Context) where
  map_region-Mapped :
      (r : ℕ) (w : World K)
      → Post
          (λ _ (v : World K). v.db ≡ with_mappings s tenant_id (r ∷ []) w.db)
          (map_region s tenant_id c r w).0
          (map_region s tenant_id c r w).1
  unfolding map_region
  map_region-Mapped r w =
      elim (Bool-cases
        (is_of (λ (x : RegionOfInterest). x.tenant_id) tenant_id (get_region c r w.db))) [
          | inl found ↦ rw found (elim (Bool-cases (is_mapped s.rule_id r w.db)) [
            | inl twice ↦ rw twice tt
            | inr once ↦ rw once refl
          ])
          | inr missing ↦ rw missing tt
        ]

  map_regions-Mapped :
      (ids : List ℕ) (w : World K)
      → Post
          (λ _ (v : World K). v.db ≡ with_mappings s tenant_id ids w.db)
          (map_regions s tenant_id c ids w).0
          (map_regions s tenant_id c ids w).1
  unfolding map_regions
  map_regions-Mapped [] w =
      ap (λ x. record w.db { rule_regions = x }) (sym (append-nil w.db.rule_regions))
  map_regions-Mapped (r ∷ rest) w =
      continue-Post (λ _ (v : World K). v.db ≡ with_mappings s tenant_id (r ∷ []) w.db) _
        (λ _. map_regions s tenant_id c rest) _ _
        (λ _. record {
          run = λ v h.
              Post-mono {P = λ _ (u : World K). u.db ≡ with_mappings s tenant_id rest v.db} _ _
                (λ _ u k.
                  k
                  ∙ ap (with_mappings s tenant_id rest) h
                  ∙ ap (λ x. record w.db { rule_regions = x })
                      (append_assoc w.db.rule_regions (new_mapping s tenant_id r ∷ []) _))
                (map_regions-Mapped rest v);
        })
        (map_region-Mapped r w)

  -- A creation that returns has added the rule and a mapping to each of its regions.
  pub create_rule_effects :
      (body : CreateRuleRequest) (w : World K) (r : RuleResponse)
      → (create_rule s tenant_id body c w).0 ≡ ok r
      → (r ≡ response_of (new_rule s.rule_id tenant_id body) body.region_ids)
        × ((create_rule s tenant_id body c w).1.db ≡ with_rule s tenant_id body w.db)
  unfolding create_rule insert_rule
  create_rule_effects body w r h =
      elim (Bool-cases (
        is_of (λ (x : ContextMode). x.tenant_id) tenant_id
          (get_mode c body.context_mode_id w.db))) [
            | inl found ↦
                let returned = rw found at h in
                let answer = response_of (new_rule s.rule_id tenant_id body) body.region_ids in
                let v = record w {
                  db = record w.db { rules = w.db.rules ++ new_rule s.rule_id tenant_id body ∷ [] };
                } in
                rw found (
                  Post-ok
                    (λ (x : RuleResponse) (u : World K).
                      (x ≡ answer) × (u.db ≡ with_rule s tenant_id body w.db))
                    _ _
                    (continue-Post (λ _ (u : World K). u.db ≡ with_rule s tenant_id body w.db) _
                      (λ _. pure answer) _ _ (λ _. record { run = λ u k. (refl, k) })
                      (map_regions-Mapped body.region_ids v))
                    returned)
            | inr missing ↦ (let no = rw missing at h in cc)
          ]
