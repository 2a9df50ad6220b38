-- ===== src/Domain/Enums.antt =====
-- runtime/src/argus/domain/enums.py: the enums, the text of each member, and the lookup of a member
-- by its text (`UserRole(value)` raises `ValueError` where this gives `none`).
use argus_services.Prelude.{
  String, ◌≡◌, refl, Bool, true, false, Option, none, some, arith, str_eq, if◌then◌else◌,
}

pub data UserRole : Type 0 where
  root_admin tenant_admin watcher : UserRole

pub data DecisionState : Type 0 where
  normal weird warning : DecisionState
  resolved_true_positive resolved_false_positive resolved_false_negative : DecisionState

pub data FeedbackDisposition : Type 0 where
  true_positive false_positive false_negative : FeedbackDisposition

pub data NotificationChannel : Type 0 where
  sms whatsapp : NotificationChannel

pub data NotificationStatus : Type 0 where
  pending sent delivered failed : NotificationStatus

pub data ScheduleDay : Type 0 where
  mon tue wed thu fri sat sun : ScheduleDay

unfoldable pub role_value : UserRole → String
role_value root_admin = "root_admin"
role_value tenant_admin = "tenant_admin"
role_value watcher = "watcher"

-- `UserRole(value)`
unfoldable pub role_of_value : String → Option UserRole
role_of_value s =
    if str_eq s "root_admin"
    then some root_admin
    else if str_eq s "tenant_admin"
    then some tenant_admin
    else if str_eq s "watcher"
    then some watcher
    else none

unfoldable pub state_value : DecisionState → String
state_value normal = "normal"
state_value weird = "weird"
state_value warning = "warning"
state_value resolved_true_positive = "resolved_true_positive"
state_value resolved_false_positive = "resolved_false_positive"
state_value resolved_false_negative = "resolved_false_negative"

-- `DecisionState(value)`
unfoldable pub state_of_value : String → Option DecisionState
state_of_value s =
    if str_eq s "normal"
    then some normal
    else if str_eq s "weird"
    then some weird
    else if str_eq s "warning"
    then some warning
    else if str_eq s "resolved_true_positive"
    then some resolved_true_positive
    else if str_eq s "resolved_false_positive"
    then some resolved_false_positive
    else if str_eq s "resolved_false_negative"
    then some resolved_false_negative
    else none

unfoldable pub disposition_value : FeedbackDisposition → String
disposition_value true_positive = "true_positive"
disposition_value false_positive = "false_positive"
disposition_value false_negative = "false_negative"

-- Python's `==` on the members of one enum.
abbrev pub role_eq : UserRole → UserRole → Bool
role_eq root_admin root_admin = true
role_eq tenant_admin tenant_admin = true
role_eq watcher watcher = true
role_eq _ _ = false

abbrev pub state_eq : DecisionState → DecisionState → Bool
state_eq normal normal = true
state_eq weird weird = true
state_eq warning warning = true
state_eq resolved_true_positive resolved_true_positive = true
state_eq resolved_false_positive resolved_false_positive = true
state_eq resolved_false_negative resolved_false_negative = true
state_eq _ _ = false

abbrev pub day_eq : ScheduleDay → ScheduleDay → Bool
day_eq mon mon = true
day_eq tue tue = true
day_eq wed wed = true
day_eq thu thu = true
day_eq fri fri = true
day_eq sat sat = true
day_eq sun sun = true
day_eq _ _ = false

pub state_eq_refl : (s : DecisionState) → state_eq s s ≡ true
state_eq_refl normal = refl
state_eq_refl weird = refl
state_eq_refl warning = refl
state_eq_refl resolved_true_positive = refl
state_eq_refl resolved_false_positive = refl
state_eq_refl resolved_false_negative = refl

pub state_eq_sound : (s t : DecisionState) → state_eq s t ≡ true → s ≡ t
state_eq_sound s t h = ground arith
