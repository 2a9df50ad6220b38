-- ===== src/Scheduler/Tests.antt =====
-- A schedule of the night from Friday to Saturday, on Saturday at one.
use argus_services.Prelude.{◌≡◌, ◌↔◌, ◌≤◌, refl, arith, true, none}
use argus_services.Domain.Enums.{fri}
use argus_services.Domain.Models.{ContextModeSchedule}
use argus_services.Scheduler.{LocalTime, is_active, day_matches, is_within_schedule, day_of}
use argus_services.Scheduler.Weeks.{is_active_in_week, elapsed, duration}

abbrev night : ContextModeSchedule
night = record {
  id = 1;
  tenant_id = 7;
  context_mode_id = 40;
  day_of_week = fri;
  start_time = 79200000000;
  end_time = 21600000000;
  market_id = none;
}

abbrev saturday_at_one : LocalTime
saturday_at_one = record { weekday = 5; time = 3600000000 }

is_active_in_week_example :
    (is_active night saturday_at_one ≡ true) ↔ (elapsed night saturday_at_one ≤ duration night)
is_active_in_week_example =
    is_active_in_week night saturday_at_one (omega arith) (omega arith) (omega arith) (omega arith)

active_at_one : is_active night saturday_at_one ≡ true
unfolding is_active day_matches is_within_schedule day_of
active_at_one = refl
