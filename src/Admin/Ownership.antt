-- ===== src/Admin/Ownership.antt =====
-- Which rows of a tenant the routes of runtime/src/argus/api/admin join to which.
use argus_services.Prelude.{
  ℕ, true, ◌&&◌, ◌==◌, ==_refl, ◌≡◌, refl, List, [], ◌∷◌, ◌++◌, find?, find?-more,
  find?-append_last, is_some, All, All-append, All-mono, Bool-cases, inl, inr, arith,
}
use argus_services.Exec.{pure}
use argus_services.Exec.Triple.{Post, continue-Post}
use argus_services.Domain.Models.{
  RegionOfInterest, ContextMode, ContextModeSchedule, Lens, Rule, RuleRegionMapping,
}
use argus_services.World.{World, Db}
use argus_services.World.Redis.{KeyStore}
use argus_services.World.Session.{Context, allows}
use argus_services.Cameras.Ownership.{IsOwned}
use argus_services.Admin.{is_of}
use argus_services.Admin.Modes.{
  CreateScheduleRequest, CreateLensRequest, get_mode, market_exists, create_schedule, create_lens,
}
use argus_services.Admin.Rules.{
  CreateRuleRequest, RuleDraws, get_region, new_rule, response_of, is_mapped, map_region,
  map_regions, insert_rule, create_rule,
}

abbrev pub HasMode : List ContextMode → ℕ → ℕ → Type 0
HasMode modes tenant_id id =
    is_some (find? (λ (x : ContextMode). x.tenant_id == tenant_id && x.id == id) modes) ≡ true

abbrev pub HasRule : List Rule → ℕ → ℕ → Type 0
HasRule rules tenant_id id =
    is_some (find? (λ (x : Rule). x.tenant_id == tenant_id && x.id == id) rules) ≡ true

abbrev pub HasRegion : List RegionOfInterest → ℕ → ℕ → Type 0
HasRegion regions tenant_id id =
    is_some (find? (λ (x : RegionOfInterest). x.tenant_id == tenant_id && x.id == id) regions)
    ≡ true

abbrev pub IsJoin : List Rule → List RegionOfInterest → RuleRegionMapping → Type 0
IsJoin rules regions x =
    HasRule rules x.tenant_id x.rule_id × HasRegion regions x.tenant_id x.region_id

-- A schedule, a lens or a rule is for a mode of its own tenant, and a rule is mapped to a region of
-- its own tenant.
pub record HangsTogether (db : Db) : Type 0 where
  pub schedules :
      All
        (λ (x : ContextModeSchedule). HasMode db.context_modes x.tenant_id x.context_mode_id)
        db.schedules
  pub lenses : All (λ (x : Lens). HasMode db.context_modes x.tenant_id x.context_mode_id) db.lenses
  pub rules : All (λ (x : Rule). HasMode db.context_modes x.tenant_id x.context_mode_id) db.rules
  pub mappings : All (IsJoin db.rules db.regions) db.rule_regions

-- A row of the tenant that the session found is found by its keys.
found_by_keys :
    {A : Type 0} (tenant_of id_of : A → ℕ) (c : Context) (tenant_id id : ℕ) (xs : List A)
    → is_of tenant_of tenant_id (find? (λ (x : A). allows c (tenant_of x) && id_of x == id) xs)
      ≡ true
    → is_some (find? (λ (x : A). tenant_of x == tenant_id && id_of x == id) xs) ≡ true
found_by_keys tenant_of id_of c tenant_id id [] h = cc
found_by_keys tenant_of id_of c tenant_id id (x ∷ xs) h =
    ground (arith, h, found_by_keys tenant_of id_of c tenant_id id xs)

pub more_modes :
    (db : Db) (m : ContextMode)
    → HangsTogether db
    → HangsTogether (record db { context_modes = db.context_modes ++ m ∷ [] })
more_modes db m h = record {
  schedules = All-mono (λ x k. find?-more _ db.context_modes _ k) db.schedules h.schedules;
  lenses = All-mono (λ x k. find?-more _ db.context_modes _ k) db.lenses h.lenses;
  rules = All-mono (λ x k. find?-more _ db.context_modes _ k) db.rules h.rules;
  mappings = h.mappings;
}

pub more_regions :
    (db : Db) (r : RegionOfInterest)
    → HangsTogether db
    → HangsTogether (record db { regions = db.regions ++ r ∷ [] })
more_regions db r h = record {
  schedules = h.schedules;
  lenses = h.lenses;
  rules = h.rules;
  mappings = All-mono (λ x k. (k.0, find?-more _ db.regions _ k.1)) db.rule_regions h.mappings;
}

abbrev pub IsSetUp : Db → Type 0
IsSetUp db = IsOwned db × HangsTogether db

-- The new rule is there when its mappings are added.
abbrev HasNewRule : RuleDraws → ℕ → Db → Type 0
HasNewRule s tenant_id db = IsSetUp db × HasRule db.rules tenant_id s.rule_id

module _ {K : KeyStore} where
  pub create_schedule-IsSetUp :
      (id tenant_id mode_id : ℕ) (body : CreateScheduleRequest) (c : Context) (w : World K)
      → IsSetUp w.db
      → Post
          (λ _ (v : World K). IsSetUp v.db)
          (create_schedule id tenant_id mode_id body c w).0
          (create_schedule id tenant_id mode_id body c w).1
  unfolding create_schedule get_mode
  create_schedule-IsSetUp id tenant_id mode_id body c w (o, h) =
      elim (Bool-cases
        (is_of (λ (x : ContextMode). x.tenant_id) tenant_id (get_mode c mode_id w.db))) [
          | inl found ↦ rw found (elim (Bool-cases (market_exists body.market_id w.db)) [
            | inl there ↦ rw there (
              o,
              record {
                schedules = All-append _ w.db.schedules _ h.schedules (
                  found_by_keys (λ (x : ContextMode). x.tenant_id) (λ (x : ContextMode). x.id) c
                      tenant_id mode_id w.db.context_modes found,
                  tt,
                );
                lenses = h.lenses;
                rules = h.rules;
                mappings = h.mappings;
              },
            )
            | inr nowhere ↦ rw nowhere tt
          ])
          | inr missing ↦ rw missing tt
        ]

  pub create_lens-IsSetUp :
      (id tenant_id mode_id : ℕ) (body : CreateLensRequest) (c : Context) (w : World K)
      → IsSetUp w.db
      → Post
          (λ _ (v : World K). IsSetUp v.db)
          (create_lens id tenant_id mode_id body c w).0
          (create_lens id tenant_id mode_id body c w).1
  unfolding create_lens get_mode
  create_lens-IsSetUp id tenant_id mode_id body c w (o, h) =
      elim (Bool-cases
        (is_of (λ (x : ContextMode). x.tenant_id) tenant_id (get_mode c mode_id w.db))) [
          | inl found ↦ rw found (
            o,
            record {
              schedules = h.schedules;
              lenses = All-append _ w.db.lenses _ h.lenses (
                found_by_keys (λ (x : ContextMode). x.tenant_id) (λ (x : ContextMode). x.id) c
                    tenant_id mode_id w.db.context_modes found,
                tt,
              );
              rules = h.rules;
              mappings = h.mappings;
            },
          )
          | inr missing ↦ rw missing tt
        ]

  map_region-HasNewRule :
      (s : RuleDraws) (tenant_id : ℕ) (c : Context) (r : ℕ) (w : World K)
      → HasNewRule s tenant_id w.db
      → Post
          (λ _ (v : World K). HasNewRule s tenant_id v.db)
          (map_region s tenant_id c r w).0
          (map_region s tenant_id c r w).1
  unfolding map_region get_region
  map_region-HasNewRule s tenant_id c r w ((o, h), there) =
      elim (Bool-cases
        (is_of (λ (x : RegionOfInterest). x.tenant_id) tenant_id (get_region c r w.db))) [
          | inl found ↦ rw found (elim (Bool-cases (is_mapped s.rule_id r w.db)) [
            | inl twice ↦ rw twice tt
            | inr once ↦ rw once (
              (
                o,
                record {
                  schedules = h.schedules;
                  lenses = h.lenses;
                  rules = h.rules;
                  mappings =
                      All-append (IsJoin w.db.rules w.db.regions) w.db.rule_regions _ h.mappings (
                        (
                          there,
                          found_by_keys (λ (x : RegionOfInterest). x.tenant_id)
                              (λ (x : RegionOfInterest). x.id) c tenant_id r w.db.regions found,
                        ),
                        tt,
                      );
                },
              ),
              there,
            )
          ])
          | inr missing ↦ rw missing tt
        ]

  map_regions-HasNewRule :
      (s : RuleDraws) (tenant_id : ℕ) (c : Context) (ids : List ℕ) (w : World K)
      → HasNewRule s tenant_id w.db
      → Post
          (λ _ (v : World K). HasNewRule s tenant_id v.db)
          (map_regions s tenant_id c ids w).0
          (map_regions s tenant_id c ids w).1
  unfolding map_regions
  map_regions-HasNewRule s tenant_id c [] w h = h
  map_regions-HasNewRule s tenant_id c (r ∷ rest) w h =
      continue-Post (λ _ (v : World K). HasNewRule s tenant_id v.db) _
        (λ _. map_regions s tenant_id c rest) _ _
        (λ _. record { run = λ v k. map_regions-HasNewRule s tenant_id c rest v k })
        (map_region-HasNewRule s tenant_id c r w h)

  pub create_rule-IsSetUp :
      (s : RuleDraws) (tenant_id : ℕ) (body : CreateRuleRequest) (c : Context) (w : World K)
      → IsSetUp w.db
      → Post
          (λ _ (v : World K). IsSetUp v.db)
          (create_rule s tenant_id body c w).0
          (create_rule s tenant_id body c w).1
  unfolding create_rule insert_rule get_mode
  create_rule-IsSetUp s tenant_id body c w (o, h) =
      elim (Bool-cases (
        is_of (λ (x : ContextMode). x.tenant_id) tenant_id
          (get_mode c body.context_mode_id w.db))) [
            | inl found ↦
                let rule = new_rule s.rule_id tenant_id body in
                let v : World K = record w {
                  db = record w.db { rules = w.db.rules ++ rule ∷ [] };
                } in
                let mode =
                  found_by_keys (λ (x : ContextMode). x.tenant_id) (λ (x : ContextMode). x.id) c
                    tenant_id body.context_mode_id w.db.context_modes found in
                let with_rule : HasNewRule s tenant_id v.db = (
                  (
                    o,
                    record {
                      schedules = h.schedules;
                      lenses = h.lenses;
                      rules = All-append _ w.db.rules _ h.rules (mode, tt);
                      mappings =
                          All-mono (λ x k. (find?-more _ w.db.rules _ k.0, k.1)) w.db.rule_regions
                            h.mappings;
                    },
                  ),
                  find?-append_last _ w.db.rules rule
                      (rw (==_refl tenant_id, ==_refl s.rule_id) refl),
                ) in
                rw found (
                  continue-Post (λ _ (u : World K). HasNewRule s tenant_id u.db) _
                    (λ _. pure (response_of rule body.region_ids)) _ _
                    (λ _. record { run = λ u k. k.0 })
                    (map_regions-HasNewRule s tenant_id c body.region_ids v with_rule))
            | inr missing ↦ rw missing tt
          ]
