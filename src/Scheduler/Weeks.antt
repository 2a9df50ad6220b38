-- ===== src/Scheduler/Weeks.antt =====
-- When a schedule is active, told on the line of one week.
use argus_services.Prelude.{
  ℕ, true, ◌&&◌, ◌||◌, ◌==◌, ◌+◌, ◌-◌, ◌*◌, ◌%◌, ◌≤◌, ◌<◌, leb, ◌≡◌, ◌↔◌, arith, if◌then◌else◌,
}
use argus_services.Domain.Enums.{ScheduleDay, mon, tue, wed, thu, fri, sat, sun, day_eq}
use argus_services.Domain.Models.{ContextModeSchedule}
use argus_services.Scheduler.{LocalTime, day_of, is_within_schedule, day_matches, is_active}

abbrev pub day_length : ℕ
day_length = 86400000000

abbrev pub week_length : ℕ
week_length = 604800000000

abbrev pub day_number : ScheduleDay → ℕ
day_number mon = 0
day_number tue = 1
day_number wed = 2
day_number thu = 3
day_number fri = 4
day_number sat = 5
day_number sun = 6

-- The time since the schedule last started, on the circle of a week.
abbrev pub elapsed : ContextModeSchedule → LocalTime → ℕ
elapsed s now =
    (week_length
      + now.weekday * day_length
      + now.time
      - (day_number s.day_of_week * day_length + s.start_time))
    % week_length

-- How long it lasts: into the next day, if it ends before it starts.
abbrev pub duration : ContextModeSchedule → ℕ
duration s =
    if leb s.start_time s.end_time
    then s.end_time - s.start_time
    else day_length + s.end_time - s.start_time

day_number_small : (d : ScheduleDay) → day_number d < 7
day_number_small mon = omega arith
day_number_small tue = omega arith
day_number_small wed = omega arith
day_number_small thu = omega arith
day_number_small fri = omega arith
day_number_small sat = omega arith
day_number_small sun = omega arith

day_of_number : (w : ℕ) (d : ScheduleDay) → w < 7 → day_eq (day_of w) d ≡ (w == day_number d)
unfolding day_of
day_of_number w mon h = ground arith
day_of_number w tue h = ground arith
day_of_number w wed h = ground arith
day_of_number w thu h = ground arith
day_of_number w fri h = ground arith
day_of_number w sat h = ground arith
day_of_number w sun h = ground arith

on_the_circle :
    (w n t s e : ℕ)
    → w < 7
    → n < 7
    → t < day_length
    → s < day_length
    → e < day_length
    → (((if leb s e then w == n else (w == n && leb s t) || ((w + 6) % 7 == n && leb t e))
          && is_within_schedule s e t)
        ≡ true)
      ↔ ((week_length + w * day_length + t - (n * day_length + s)) % week_length
          ≤ (if leb s e then e - s else day_length + e - s))
unfolding is_within_schedule
on_the_circle w n t s e hw hn ht hs he = ground arith

-- On the circle of the week, a schedule is active exactly for its duration from each of its starts on,
-- both ends included; one that ends before it starts lasts into the next day.
pub is_active_in_week :
    (s : ContextModeSchedule) (now : LocalTime)
    → now.weekday < 7
    → now.time < day_length
    → s.start_time < day_length
    → s.end_time < day_length
    → (is_active s now ≡ true) ↔ (elapsed s now ≤ duration s)
unfolding is_active day_matches
is_active_in_week s now hw ht hs he =
    let here = day_of_number now.weekday s.day_of_week hw in
    let before = day_of_number ((now.weekday + 6) % 7) s.day_of_week (omega arith) in
    rw here (
      rw before (
        on_the_circle now.weekday (day_number s.day_of_week) now.time s.start_time s.end_time hw
          (day_number_small s.day_of_week) ht hs he))
