-- ===== src/Admin/Rules.antt =====
-- runtime/src/argus/api/admin/rules.py: rules and the regions that they are for.
pub mod Effects
pub mod Listing
use argus_services.Prelude.{
  ℕ, ℤ, String, Bool, ◌≡◌, count, true, false, ◌&&◌, ◌==◌, Option, none, some, List, [], ◌∷◌, ◌++◌,
  find?, select, map, is_some, if◌then◌else◌,
}
use argus_services.Exec.{
  Exec, Result, ok, raised, http_exception, integrity_error, pure, ◌>>=◌, ◌>>◌,
}
use argus_services.Domain.Json.{Fields}
use argus_services.Domain.Models.{ContextMode, RegionOfInterest, Rule, RuleRegionMapping}
use argus_services.World.{World, Db}
use argus_services.World.Redis.{KeyStore}
use argus_services.World.Session.{Context, allows}
use argus_services.Admin.{is_of}
use argus_services.Admin.Modes.{get_mode}

pub record CreateRuleRequest : Type 0 where
  pub context_mode_id : ℕ
  pub name : String
  pub condition : Fields
  pub severity_weight : ℤ
  pub region_ids : List ℕ

pub record RuleResponse : Type 0 where
  pub id : ℕ
  pub context_mode_id : ℕ
  pub name : String
  pub condition : Fields
  pub severity_weight : ℤ
  pub region_ids : List ℕ

-- The id of the rule, and those of its mappings by region.
pub record RuleDraws : Type 0 where
  pub rule_id : ℕ
  pub mapping_id : ℕ → ℕ

unfoldable pub get_region : Context → ℕ → Db → Option RegionOfInterest
get_region c id db = find? (λ (x : RegionOfInterest). allows c x.tenant_id && x.id == id) db.regions

abbrev pub new_rule : ℕ → ℕ → CreateRuleRequest → Rule
new_rule id tenant_id body = record {
  id = id;
  tenant_id = tenant_id;
  context_mode_id = body.context_mode_id;
  name = body.name;
  condition = body.condition;
  severity_weight = body.severity_weight;
}

abbrev pub new_mapping : RuleDraws → ℕ → ℕ → RuleRegionMapping
new_mapping s tenant_id region_id = record {
  id = s.mapping_id region_id;
  tenant_id = tenant_id;
  rule_id = s.rule_id;
  region_id = region_id;
}

abbrev pub response_of : Rule → List ℕ → RuleResponse
response_of r region_ids = record {
  id = r.id;
  context_mode_id = r.context_mode_id;
  name = r.name;
  condition = r.condition;
  severity_weight = r.severity_weight;
  region_ids = region_ids;
}

-- The unique constraint on rule and region.
abbrev pub is_mapped : ℕ → ℕ → Db → Bool
is_mapped rule_id region_id db = is_some (
    find? (λ (x : RuleRegionMapping). x.rule_id == rule_id && x.region_id == region_id)
      db.rule_regions)

module _ {K : KeyStore} where
  -- One turn of the loop; the session flushes a new row before its next read.
  unfoldable pub map_region : RuleDraws → ℕ → Context → ℕ → Exec (World K) (Unit {0})
  map_region s tenant_id c region_id w =
      if is_of (λ (x : RegionOfInterest). x.tenant_id) tenant_id (get_region c region_id w.db)
      then (if is_mapped s.rule_id region_id w.db
          then (raised (integrity_error "uq_rule_region_mappings_rule_region"), w)
          else (
            ok tt,
            record w {
              db = record w.db {
                rule_regions = w.db.rule_regions ++ new_mapping s tenant_id region_id ∷ [];
              };
            },
          ))
      else (raised (http_exception 400 "Invalid region_id"), w)

  unfoldable pub map_regions : RuleDraws → ℕ → Context → List ℕ → Exec (World K) (Unit {0})
  map_regions s tenant_id c [] = pure tt
  map_regions s tenant_id c (r ∷ rest) =
      map_region s tenant_id c r >> map_regions s tenant_id c rest

  unfoldable pub insert_rule : Rule → Exec (World K) (Unit {0})
  insert_rule r w = (ok tt, record w { db = record w.db { rules = w.db.rules ++ r ∷ [] } })

  unfoldable pub create_rule :
      RuleDraws → ℕ → CreateRuleRequest → Context → Exec (World K) RuleResponse
  create_rule s tenant_id body c w =
      let added = (do
        insert_rule (new_rule s.rule_id tenant_id body)
        map_regions s tenant_id c body.region_ids
        pure (response_of (new_rule s.rule_id tenant_id body) body.region_ids)) in
      if is_of (λ (x : ContextMode). x.tenant_id) tenant_id (get_mode c body.context_mode_id w.db)
      then added w
      else (raised (http_exception 404 "Context mode not found"), w)

-- The second query of `list_rules`, for one rule.
abbrev pub regions_of : Context → Db → ℕ → List ℕ
regions_of c db rule_id =
    map (λ (x : RuleRegionMapping). x.region_id)
      (select (λ (x : RuleRegionMapping). allows c x.tenant_id && x.rule_id == rule_id)
        db.rule_regions)

-- A SELECT without ORDER BY gives its rows in an order of the database's choice: the same rows, as every
-- test counts them.
pub record RowOrder : Type 1 where
  pub arrange : {A : Type 0} → List A → List A
  pub count-arrange : {A : Type 0} (p : A → Bool) (xs : List A) → count p (arrange xs) ≡ count p xs

unfoldable pub list_rules : RowOrder → ℕ → Context → Db → List RuleResponse
list_rules O tenant_id c db =
    map (λ (r : Rule). response_of r (O.arrange (regions_of c db r.id)))
      (O.arrange (select (λ (r : Rule). allows c r.tenant_id && r.tenant_id == tenant_id) db.rules))
