-- ===== src/Scheduler.antt =====
-- runtime/src/argus/workers/scheduler.py: which schedules are active, and the active mode that they give
-- to the cameras. Times of a day are microseconds from midnight. The local time in a zone, at the
-- instant of the run, is a parameter; a zone that the system does not know raises.
pub mod Weeks
mod Tests
use argus_services.Prelude.{
  ℕ, String, Bool, true, false, not, ◌&&◌, ◌||◌, ◌==◌, ◌+◌, ◌%◌, leb, Option, none, some, List, [],
  ◌∷◌, find?, select, eq_opt, if◌then◌else◌,
}
use argus_services.Exec.{Exec, Result, ok, raised, key_error, pure, raise, modify, ◌>>=◌, ◌>>◌}
use argus_services.Domain.Enums.{ScheduleDay, mon, tue, wed, thu, fri, sat, sun, day_eq}
use argus_services.Domain.Json.{uuid_text}
use argus_services.Domain.Models.{Camera, Market, ContextModeSchedule, ContextModeCameraAssignment}
use argus_services.World.{World, Db}
use argus_services.World.Redis.{KeyStore, active_mode}

-- `astimezone(zone)`: the weekday, counted from Monday, and the time of day.
pub record LocalTime : Type 0 where
  pub weekday : ℕ
  pub time : ℕ

unfoldable pub day_of : ℕ → ScheduleDay
day_of w =
    if w == 0
    then mon
    else if w == 1
    then tue
    else if w == 2
    then wed
    else if w == 3
    then thu
    else if w == 4
    then fri
    else if w == 5
    then sat
    else sun

unfoldable pub is_within_schedule : ℕ → ℕ → ℕ → Bool
is_within_schedule start end_of current =
    if leb start end_of
    then leb start current && leb current end_of
    else leb start current || leb current end_of

unfoldable pub matches_market : Option ℕ → ℕ → Bool
matches_market none camera_market = true
matches_market (some m) camera_market = m == camera_market

-- `(weekday - 1) % 7`
unfoldable pub day_matches : ContextModeSchedule → LocalTime → Bool
day_matches s now =
    if leb s.start_time s.end_time
    then day_eq (day_of now.weekday) s.day_of_week
    else (day_eq (day_of now.weekday) s.day_of_week && leb s.start_time now.time)
      || (day_eq (day_of ((now.weekday + 6) % 7)) s.day_of_week && leb now.time s.end_time)

unfoldable pub is_active : ContextModeSchedule → LocalTime → Bool
is_active s now = day_matches s now && is_within_schedule s.start_time s.end_time now.time

abbrev pub zone_of : ContextModeSchedule → Db → String
zone_of s db = elim s.market_id [
  | none ↦ "UTC"
  | some m ↦ elim (find? (λ (x : Market). x.id == m) db.markets) [
    | none ↦ "UTC"
    | some x ↦ x.timezone
  ]
]

module _ {K : KeyStore} (clock : String → Option LocalTime) where
  unfoldable pub set_active : ContextModeSchedule → ContextModeCameraAssignment → Exec (World K) ℕ
  set_active s a w = (
    ok 1,
    record w {
      redis =
          KeyStore.set_key K (active_mode a.camera_id) (uuid_text s.context_mode_id) 86400 w.redis;
    },
  )

  -- One turn of the inner loop: how many cameras it activated.
  unfoldable pub assign : ContextModeSchedule → ContextModeCameraAssignment → Db → Exec (World K) ℕ
  unfolding set_active
  assign s a db w =
      if a.context_mode_id == s.context_mode_id
      then elim (find? (λ (x : Camera). x.id == a.camera_id) db.cameras) [
        | none ↦ (raised (key_error "camera"), w)
        | some x ↦ if matches_market s.market_id x.market_id then set_active s a w else (ok 0, w)
      ]
      else (ok 0, w)

  unfoldable pub assign_all :
      ContextModeSchedule → List ContextModeCameraAssignment → Db → Exec (World K) ℕ
  assign_all s [] db = pure 0
  assign_all s (a ∷ rest) db = do n ← assign s a db; k ← assign_all s rest db; pure (n + k)

  unfoldable pub activate : ContextModeSchedule → Option LocalTime → Db → Exec (World K) ℕ
  activate s none db w = (raised (key_error "No time zone found"), w)
  activate s (some now) db w =
      if is_active s now then assign_all s db.assignments db w else (ok 0, w)

  unfoldable pub activate_all : List ContextModeSchedule → Db → Exec (World K) ℕ
  activate_all [] db = pure 0
  activate_all (s ∷ rest) db = do
    n ← activate s (clock (zone_of s db)) db
    k ← activate_all rest db
    pure (n + k)

  -- The session is one of root, which reads every row, and is closed before the loops.
  unfoldable pub activate_scheduled_modes : Exec (World K) ℕ
  activate_scheduled_modes w = activate_all w.db.schedules w.db w
