-- ===== src/Startup/Queues.antt =====
-- The queues of the tasks in runtime/src/argus/workers/celery_app.py, and those that the workers take from.
use argus_services.Prelude.{
  String, Bool, false, ◌≡◌, refl, Option, none, some, List, [], ◌∷◌, str_eq, if◌then◌else◌,
}
use argus_services.Startup.{
  ServiceRole, api_admin, api_ingest, ws_gateway, worker_vlm, worker_aggregator, worker_notify,
  worker_scheduler, service_role_value, ProcessSettings, Process, serves, executes, exits, fails,
  exec_celery_worker, run_worker_for_role, run_http_service, main, TaskName, process_ingest_stream,
  analyze_ingest_message, aggregate_evidence, notify_warning, activate_scheduled_modes, group_of,
  task_routes, queue_of,
}

-- The argument of `-Q`.
abbrev queue_argument : List String → Option String
queue_argument [] = none
queue_argument (x ∷ []) = none
queue_argument (x ∷ y ∷ rest) =
    let later = queue_argument (y ∷ rest) in if str_eq x "-Q" then some y else later

abbrev takes_from : Process → Option String
takes_from (executes argv) = queue_argument argv
takes_from (serves app host port level) = none
takes_from (exits code) = none
takes_from (fails e) = none

abbrev is_queue : Option String → Option String → Bool
is_queue none q = false
is_queue (some a) none = false
is_queue (some a) (some b) = str_eq a b

-- The role that works on a task.
abbrev worker_of : TaskName → ServiceRole
worker_of process_ingest_stream = worker_vlm
worker_of analyze_ingest_message = worker_vlm
worker_of aggregate_evidence = worker_aggregator
worker_of notify_warning = worker_notify
worker_of activate_scheduled_modes = worker_scheduler

abbrev role_is : ServiceRole → ServiceRole → Bool
role_is a b = str_eq (service_role_value a) (service_role_value b)

abbrev queue_of_role : ServiceRole → Option String
queue_of_role worker_vlm = some "vlm"
queue_of_role worker_aggregator = some "aggregate"
queue_of_role worker_notify = some "notify"
queue_of_role worker_scheduler = some "schedule"
queue_of_role _ = none

takes_from-main :
    (S : ProcessSettings) (role : ServiceRole)
    → takes_from (main S (service_role_value role)) ≡ queue_of_role role
unfolding main run_worker_for_role run_http_service exec_celery_worker
takes_from-main S api_admin = refl
takes_from-main S api_ingest = refl
takes_from-main S ws_gateway = refl
takes_from-main S worker_vlm = refl
takes_from-main S worker_aggregator = refl
takes_from-main S worker_notify = refl
takes_from-main S worker_scheduler = refl

-- A process of some role takes a task from its queue exactly if the role is the worker of the task: each
-- task is worked on by one role, and no HTTP service takes any.
task_taken :
    (S : ProcessSettings) (t : TaskName) (role : ServiceRole)
    → is_queue (queue_of (group_of t) task_routes) (takes_from (main S (service_role_value role)))
      ≡ role_is (worker_of t) role
task_taken S t role = rw (takes_from-main S role) (split t role)
  where
    split :
        (t : TaskName) (role : ServiceRole)
        → is_queue (queue_of (group_of t) task_routes) (queue_of_role role)
          ≡ role_is (worker_of t) role
    split process_ingest_stream worker_vlm = refl
    split process_ingest_stream _ = refl
    split analyze_ingest_message worker_vlm = refl
    split analyze_ingest_message _ = refl
    split aggregate_evidence worker_aggregator = refl
    split aggregate_evidence _ = refl
    split notify_warning worker_notify = refl
    split notify_warning _ = refl
    split activate_scheduled_modes worker_scheduler = refl
    split activate_scheduled_modes _ = refl
