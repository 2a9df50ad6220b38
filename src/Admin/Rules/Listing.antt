-- ===== src/Admin/Rules/Listing.antt =====
-- runtime/src/argus/api/admin/rules.py: the list of rules after a creation.
use argus_services.Prelude.{
  ℕ, Bool, true, false, ◌&&◌, ◌==◌, ==_refl, ◌≡◌, ◌≢◌, refl, sym, ap, ap₂, ◌∙◌, arith, List, [],
  ◌∷◌, ◌++◌, ◌+◌, suc, map, append-nil, select, select-append, select-none, count, count-append,
  if◌then◌else◌, All, All-mono, Bool-cases, inl, inr,
}
use argus_services.Exec.{ok}
use argus_services.Domain.Models.{Rule, RuleRegionMapping}
use argus_services.World.{World, Db}
use argus_services.World.Redis.{KeyStore}
use argus_services.World.Session.{Context, allows}
use argus_services.Admin.Rules.Effects.{with_mappings, with_rule, create_rule_effects}
use argus_services.Admin.Rules.{
  CreateRuleRequest, RuleResponse, RuleDraws, new_rule, new_mapping, response_of, create_rule,
  regions_of, RowOrder, list_rules,
}

abbrev maps : Context → ℕ → RuleRegionMapping → Bool
maps c id x = allows c x.tenant_id && x.rule_id == id

-- Two answers for a rule that differ at most in the order of its regions.
pub record IsSame (x y : RuleResponse) : Type 0 where
  pub same_rule : record x { region_ids = [] } ≡ record y { region_ids = [] }
  pub same_regions : (p : ℕ → Bool) → count p x.region_ids ≡ count p y.region_ids

count-map :
    {A B : Type 0} (q : B → Bool) (f : A → B) (xs : List A)
    → count q (map f xs) ≡ count (λ x. q (f x)) xs
count-map q f [] = refl
count-map q f (x ∷ xs) = elim (Bool-cases (q (f x))) [
  | inl hit ↦ rw hit (ap suc (count-map q f xs))
  | inr miss ↦ rw miss (count-map q f xs)
]

count-select-ext :
    {A : Type 0} (p f g : A → Bool) (xs : List A)
    → All (λ x. f x ≡ g x) xs
    → count f (select p xs) ≡ count g (select p xs)
count-select-ext p f g [] h = refl
count-select-ext p f g (x ∷ xs) h = elim (Bool-cases (p x)) [
  | inl hit ↦ rw (hit, h.0) (ap (λ n. if g x then suc n else n) (count-select-ext p f g xs h.1))
  | inr miss ↦ rw miss (count-select-ext p f g xs h.1)
]

module _ (s : RuleDraws) (tenant_id : ℕ) (c : Context) where
  -- The mappings of the new rule are found for it, and for no other.
  found_mappings :
      (ids : List ℕ)
      → allows c tenant_id ≡ true
      → map
          (λ (x : RuleRegionMapping). x.region_id)
          (select
            (λ (x : RuleRegionMapping). allows c x.tenant_id && x.rule_id == s.rule_id)
            (map (new_mapping s tenant_id) ids))
        ≡ ids
  found_mappings [] a = refl
  found_mappings (r ∷ rest) a =
      rw a (rw (==_refl s.rule_id) (ap (λ l. r ∷ l) (found_mappings rest a)))

  no_mappings :
      (ids : List ℕ) (id : ℕ)
      → id ≢ s.rule_id
      → All
          (λ (x : RuleRegionMapping). (allows c x.tenant_id && x.rule_id == id) ≡ false)
          (map (new_mapping s tenant_id) ids)
  no_mappings [] id n = tt
  no_mappings (r ∷ rest) id n = (ground arith, no_mappings rest id n)

  unmapped :
      (x : RuleRegionMapping)
      → x.rule_id ≢ s.rule_id
      → (allows c x.tenant_id && x.rule_id == s.rule_id) ≡ false
  unmapped x n = ground arith

  regions_of-other :
      (ids : List ℕ) (db : Db) (id : ℕ)
      → id ≢ s.rule_id
      → regions_of c (with_mappings s tenant_id ids db) id ≡ regions_of c db id
  regions_of-other ids db id n = ap (map (λ (x : RuleRegionMapping). x.region_id)) (
      select-append (maps c id) db.rule_regions (map (new_mapping s tenant_id) ids)
      ∙ ap (λ l. select (maps c id) db.rule_regions ++ l)
          (select-none (maps c id) _ (no_mappings ids id n))
      ∙ append-nil _)

  regions_of-new :
      (ids : List ℕ) (db : Db)
      → allows c tenant_id ≡ true
      → All (λ (x : RuleRegionMapping). x.rule_id ≢ s.rule_id) db.rule_regions
      → regions_of c (with_mappings s tenant_id ids db) s.rule_id ≡ ids
  regions_of-new ids db a fresh =
      ap (map (λ (x : RuleRegionMapping). x.region_id)) (
        select-append (maps c s.rule_id) db.rule_regions (map (new_mapping s tenant_id) ids)
        ∙ ap (λ l. l ++ select (maps c s.rule_id) (map (new_mapping s tenant_id) ids))
            (select-none (maps c s.rule_id) db.rule_regions
              (All-mono unmapped db.rule_regions fresh)))
      ∙ found_mappings ids a

  of_tenant : Rule → Bool
  of_tenant r = allows c r.tenant_id && r.tenant_id == tenant_id

  listed : RowOrder → Db → Rule → RuleResponse
  listed O db r = response_of r (O.arrange (regions_of c db r.id))

  count-list_rules :
      (O : RowOrder) (q : RuleResponse → Bool) (db : Db)
      → count q (list_rules O tenant_id c db)
        ≡ count (λ r. q (listed O db r)) (select of_tenant db.rules)
  unfolding list_rules listed of_tenant
  count-list_rules O q db =
      count-map q (listed O db) (O.arrange (select of_tenant db.rules))
      ∙ O.count-arrange (λ r. q (listed O db r)) (select of_tenant db.rules)

  -- The rules of before and the new one, as a test that does not look at the order of regions counts.
  count-with_rule :
      (O O' : RowOrder) (q : RuleResponse → Bool) (body : CreateRuleRequest) (db : Db)
      → ((x y : RuleResponse) → IsSame x y → q x ≡ q y)
      → allows c tenant_id ≡ true
      → All (λ (x : Rule). x.id ≢ s.rule_id) db.rules
      → All (λ (x : RuleRegionMapping). x.rule_id ≢ s.rule_id) db.rule_regions
      → count q (list_rules O' tenant_id c (with_rule s tenant_id body db))
        ≡ count q (list_rules O tenant_id c db)
          + (if q (response_of (new_rule s.rule_id tenant_id body) body.region_ids) then 1 else 0)
  unfolding listed of_tenant
  count-with_rule O O' q body db blind a fresh unmapped_yet =
      count-list_rules O' q after
      ∙ ap (count (λ r. q (listed O' after r))) (select-append of_tenant db.rules (rule ∷ []))
      ∙ count-append (λ r. q (listed O' after r)) (select of_tenant db.rules)
          (select of_tenant (rule ∷ []))
      ∙ ap₂ (λ m n. m + n)
          (count-select-ext of_tenant (λ r. q (listed O' after r)) (λ r. q (listed O db r)) db.rules
              (All-mono others db.rules fresh)
            ∙ sym (count-list_rules O q db))
          (rw a (rw (==_refl tenant_id) (ap (λ b. if b then 1 else 0) newest)))
    where
      rule : Rule
      rule = new_rule s.rule_id tenant_id body

      after : Db
      after = with_rule s tenant_id body db

      others : (x : Rule) → x.id ≢ s.rule_id → q (listed O' after x) ≡ q (listed O db x)
      others x n = blind (listed O' after x) (listed O db x) (record {
        same_rule = refl;
        same_regions = λ p.
            O'.count-arrange p (regions_of c after x.id)
            ∙ ap (count p) (regions_of-other body.region_ids db x.id n)
            ∙ sym (O.count-arrange p (regions_of c db x.id));
      })

      newest : q (listed O' after rule) ≡ q (response_of rule body.region_ids)
      newest = blind (listed O' after rule) (response_of rule body.region_ids) (record {
        same_rule = refl;
        same_regions = λ p.
            O'.count-arrange p (regions_of c after s.rule_id)
            ∙ ap (count p) (regions_of-new body.region_ids db a unmapped_yet);
      })

module _ {K : KeyStore} (s : RuleDraws) (tenant_id : ℕ) (c : Context) where
  -- A rule that is created, with ids that no rule and no mapping has yet, in a session that may see the
  -- tenant, is listed from then on as it was answered, once and besides the rules that were listed
  -- before, which are listed as before. The database gives the rules, and the regions of each, in any
  -- order: this is said by how often a test that does not look at the order of regions holds.
  pub create_rule-listed :
      (O O' : RowOrder) (q : RuleResponse → Bool) (body : CreateRuleRequest) (w : World K)
      (r : RuleResponse)
      → ((x y : RuleResponse) → IsSame x y → q x ≡ q y)
      → allows c tenant_id ≡ true
      → All (λ (x : Rule). x.id ≢ s.rule_id) w.db.rules
      → All (λ (x : RuleRegionMapping). x.rule_id ≢ s.rule_id) w.db.rule_regions
      → (create_rule s tenant_id body c w).0 ≡ ok r
      → count q (list_rules O' tenant_id c (create_rule s tenant_id body c w).1.db)
        ≡ count q (list_rules O tenant_id c w.db) + (if q r then 1 else 0)
  create_rule-listed O O' q body w r blind a fresh unmapped_yet h =
      let (answer, after) = create_rule_effects s tenant_id c body w r h in
      ap (λ db. count q (list_rules O' tenant_id c db)) after
      ∙ count-with_rule s tenant_id c O O' q body w.db blind a fresh unmapped_yet
      ∙ ap (λ x. count q (list_rules O tenant_id c w.db) + (if q x then 1 else 0)) (sym answer)
