-- ===== src/Admin/Modes.antt =====
-- runtime/src/argus/api/admin/context_modes.py: modes, their schedules and their lenses.
use argus_services.Prelude.{
  ℕ, pos, String, Bool, true, false, ◌&&◌, ◌==◌, Option, none, some, List, [], ◌∷◌, ◌++◌, find?,
  select, is_some, if◌then◌else◌,
}
use argus_services.Exec.{Exec, ok, raised, http_exception, integrity_error}
use argus_services.Domain.Enums.{ScheduleDay}
use argus_services.Domain.Json.{Fields}
use argus_services.Domain.Models.{ContextMode, ContextModeSchedule, Lens, Market}
use argus_services.World.{World, Db}
use argus_services.World.Redis.{KeyStore}
use argus_services.World.Session.{Context, allows}
use argus_services.Admin.{is_of}

pub record CreateContextModeRequest : Type 0 where
  pub name : String
  pub description : Option String

pub record CreateScheduleRequest : Type 0 where
  pub day_of_week : ScheduleDay
  pub start_time : ℕ
  pub end_time : ℕ
  pub market_id : Option ℕ

pub record CreateLensRequest : Type 0 where
  pub name : String
  pub system_prompt : String
  pub output_schema : Fields

unfoldable pub get_mode : Context → ℕ → Db → Option ContextMode
get_mode c id db = find? (λ (x : ContextMode). allows c x.tenant_id && x.id == id) db.context_modes

abbrev pub new_mode : ℕ → ℕ → CreateContextModeRequest → ContextMode
new_mode id tenant_id body = record {
  id = id;
  tenant_id = tenant_id;
  name = body.name;
  description = body.description;
  is_active = false;
}

abbrev pub new_schedule : ℕ → ℕ → ℕ → CreateScheduleRequest → ContextModeSchedule
new_schedule id tenant_id mode_id body = record {
  id = id;
  tenant_id = tenant_id;
  context_mode_id = mode_id;
  day_of_week = body.day_of_week;
  start_time = body.start_time;
  end_time = body.end_time;
  market_id = body.market_id;
}

abbrev pub new_lens : ℕ → ℕ → ℕ → CreateLensRequest → Lens
new_lens id tenant_id mode_id body = record {
  id = id;
  tenant_id = tenant_id;
  context_mode_id = mode_id;
  name = body.name;
  system_prompt = body.system_prompt;
  output_schema = body.output_schema;
  version = pos 1;
}

-- The foreign key of a schedule's market: the row may be any tenant's.
abbrev pub market_exists : Option ℕ → Db → Bool
market_exists none db = true
market_exists (some m) db = is_some (find? (λ (x : Market). x.id == m) db.markets)

module _ {K : KeyStore} where
  unfoldable pub create_context_mode : ℕ → ℕ → CreateContextModeRequest → Exec (World K) ContextMode
  create_context_mode id tenant_id body w = (
    ok (new_mode id tenant_id body),
    record w {
      db = record w.db { context_modes = w.db.context_modes ++ new_mode id tenant_id body ∷ [] };
    },
  )

  unfoldable pub create_schedule :
      ℕ → ℕ → ℕ → CreateScheduleRequest → Context → Exec (World K) ContextModeSchedule
  create_schedule id tenant_id mode_id body c w =
      if is_of (λ (x : ContextMode). x.tenant_id) tenant_id (get_mode c mode_id w.db)
      then (if market_exists body.market_id w.db
          then (
            ok (new_schedule id tenant_id mode_id body),
            record w {
              db = record w.db {
                schedules = w.db.schedules ++ new_schedule id tenant_id mode_id body ∷ [];
              };
            },
          )
          else (raised (integrity_error "context_mode_schedules_market_id_fkey"), w))
      else (raised (http_exception 404 "Context mode not found"), w)

  unfoldable pub create_lens : ℕ → ℕ → ℕ → CreateLensRequest → Context → Exec (World K) Lens
  create_lens id tenant_id mode_id body c w =
      if is_of (λ (x : ContextMode). x.tenant_id) tenant_id (get_mode c mode_id w.db)
      then (
        ok (new_lens id tenant_id mode_id body),
        record w {
          db = record w.db { lenses = w.db.lenses ++ new_lens id tenant_id mode_id body ∷ [] };
        },
      )
      else (raised (http_exception 404 "Context mode not found"), w)

unfoldable pub list_context_modes : Context → Db → List ContextMode
list_context_modes c db = select (λ (x : ContextMode). allows c x.tenant_id) db.context_modes
