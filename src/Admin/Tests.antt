-- ===== src/Admin/Tests.antt =====
-- A mode and a region of tenant 7, and a rule for them.
use argus_services.Prelude.{
  Bool, ◌==◌, ◌+◌, count, ap, if◌then◌else◌, String, ◌≡◌, ◌⊎◌, refl, pos, some, none, true, [], ◌∷◌,
  List,
}
use argus_services.Exec.{Exec, ok, raised, http_exception}
use argus_services.Domain.Enums.{root_admin, tenant_admin}
use argus_services.Domain.Json.{end, null}
use argus_services.Domain.Models.{ContextMode, RegionOfInterest}
use argus_services.World.{World, empty_db}
use argus_services.World.Redis.{assoc_store}
use argus_services.World.Session.{Context, allows}
use argus_services.Auth.{AuthContext}
use argus_services.Access.{tenant_route}
use argus_services.Access.Outcome.{IsGranted, granted_session, Settled, tenant_route_outcome}
use argus_services.Admin.Calls.{
  Request, add_market, add_camera, add_region, add_mode, add_lens, add_rule, handle, serve,
}
use argus_services.Admin.Ownership.{IsSetUp}
use argus_services.Admin.Serving.{serve-IsSetUp}
use argus_services.Fixtures.{start}
use argus_services.Admin.Modes.{get_mode}
use argus_services.Admin.Rules.{
  CreateRuleRequest, RuleResponse, RuleDraws, get_region, new_rule, response_of, map_region,
  map_regions, create_rule, RowOrder, list_rules,
}
use argus_services.Admin.Rules.Listing.{create_rule-listed}

abbrev mode : ContextMode
mode = record { id = 40; tenant_id = 7; name = "Open"; description = none; is_active = true }

abbrev region : RegionOfInterest
region = record { id = 4; tenant_id = 7; camera_id = 3; name = "shelf"; polygon = null }

abbrev before : World assoc_store
before = record start { db = record empty_db { context_modes = mode ∷ []; regions = region ∷ [] } }

abbrev admin : Context
admin = record { current_tenant_id = some 7; current_role = some tenant_admin }

abbrev ids : RuleDraws
ids = record { rule_id = 60; mapping_id = λ region_id. 600 }

abbrev request : CreateRuleRequest
request = record {
  context_mode_id = 40;
  name = "tamper";
  condition = end;
  severity_weight = pos 3;
  region_ids = 4 ∷ [];
}

abbrev answer : RuleResponse
answer = response_of (new_rule 60 7 request) (4 ∷ [])

may_see : allows admin 7 ≡ true
unfolding allows
may_see = refl

created : (create_rule ids 7 request admin before).0 ≡ ok answer
unfolding create_rule argus_services.Admin.Rules.insert_rule map_regions map_region get_mode
    get_region allows
created = refl

abbrev as_stored : RowOrder
as_stored = record { arrange = λ xs. xs; count-arrange = λ p xs. refl }

abbrev is_new : RuleResponse → Bool
is_new x = x.id == 60

create_rule-listed_example :
    count is_new (list_rules as_stored 7 admin (create_rule ids 7 request admin before).1.db)
    ≡ count is_new (list_rules as_stored 7 admin before.db) + (if is_new answer then 1 else 0)
create_rule-listed_example =
    create_rule-listed ids 7 admin as_stored as_stored is_new request before answer
      (λ x y h. ap (λ (z : RuleResponse). z.id == 60) h.same_rule) may_see tt tt created

abbrev ann : AuthContext
ann = record { sub = "ann"; tenant_id = some 7; role = tenant_admin; token = "t"; camera_id = none }

abbrev empty : World assoc_store
empty = record start { db = empty_db }

-- The last one is for a mode that is not there.
abbrev requests : List Request
requests =
    record {
      tenant_id = 7;
      auth = ann;
      call = add_market 5 (record { name = "Centre"; timezone = "UTC" });
    }
    ∷ record {
      tenant_id = 7;
      auth = ann;
      call = add_camera 3 5 (record { name = "door"; edge_device_id = "e" });
    }
    ∷ record {
      tenant_id = 7;
      auth = ann;
      call = add_region 4 3 (record { name = "shelf"; polygon = null });
    }
    ∷ record {
      tenant_id = 7;
      auth = ann;
      call = add_mode 40 (record { name = "Open"; description = none });
    }
    ∷ record { tenant_id = 7; auth = ann; call = add_rule ids request }
    ∷ record {
      tenant_id = 7;
      auth = ann;
      call = add_lens 50 41 (record { name = "Shelf"; system_prompt = ""; output_schema = end });
    }
    ∷ []

serve-IsSetUp_example : IsSetUp (serve requests empty).db
serve-IsSetUp_example =
    serve-IsSetUp requests empty
      ((tt, tt), record { schedules = tt; lenses = tt; rules = tt; mappings = tt })

abbrev add_open : Context → AuthContext → Exec (World assoc_store) Unit
add_open c _ = handle (add_mode 41 (record { name = "Open"; description = none })) 8 c

-- Ann is of tenant 7.
tenant_route_outcome_example :
    ((¬ IsGranted (tenant_admin ∷ root_admin ∷ []) 8 ann)
      × (m : String) × (tenant_route (tenant_admin ∷ root_admin ∷ []) 8 ann add_open before
          ≡ (raised (http_exception 403 m), before)))
    ⊎ (IsGranted (tenant_admin ∷ root_admin ∷ []) 8 ann
        × Settled
            (add_open (granted_session 8 ann) ann before)
            before
            (tenant_route (tenant_admin ∷ root_admin ∷ []) 8 ann add_open before))
tenant_route_outcome_example =
    tenant_route_outcome (tenant_admin ∷ root_admin ∷ []) 8 ann add_open before
