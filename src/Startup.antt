-- ===== src/Startup.antt =====
-- What a process becomes: runtime/src/argus/main.py and workers/runtime.py by its role, the ports of
-- config.py, and the queues of workers/celery_app.py. The application of a role is named by the
-- service that its factory is for. A pattern `group.*` of a route matches the tasks of that group.
pub mod Queues
pub mod RequestContext
pub mod Streams
use argus_services.Prelude.{
  ℕ, String, Bool, true, false, Option, none, some, List, [], ◌∷◌, ◌++◌, str_eq, if◌then◌else◌,
}
use argus_services.Exec.{Exn, value_error}

pub data ServiceRole : Type 0 where
  api_admin api_ingest ws_gateway worker_vlm worker_aggregator worker_notify worker_scheduler :
      ServiceRole

-- Its text in the environment.
abbrev pub service_role_value : ServiceRole → String
service_role_value api_admin = "api-admin"
service_role_value api_ingest = "api-ingest"
service_role_value ws_gateway = "ws-gateway"
service_role_value worker_vlm = "worker-vlm"
service_role_value worker_aggregator = "worker-aggregator"
service_role_value worker_notify = "worker-notify"
service_role_value worker_scheduler = "worker-scheduler"

pub record ProcessSettings : Type 0 where
  pub api_host : String
  pub api_port : ℕ
  -- `settings.log_level.lower()`
  pub log_level : String

-- What the process goes on as.
pub data Process : Type 0 where
  -- `uvicorn.run(app, host=..., port=..., log_level=...)`
  serves : (app host : String) (port : ℕ) (level : String) → Process
  -- `os.execvp("celery", argv)`
  executes : List String → Process
  -- `sys.exit(code)`
  exits : ℕ → Process
  fails : Exn → Process

abbrev pub default_port : String → Option ℕ
default_port role =
    if str_eq role "api-admin"
    then some 8000
    else if str_eq role "api-ingest"
    then some 8001
    else if str_eq role "ws-gateway"
    then some 8002
    else none

abbrev pub resolved_api_port : ProcessSettings → String → ℕ
resolved_api_port S role = elim (default_port role) [ none ↦ S.api_port | some p ↦ p ]

abbrev pub member : String → List String → Bool
member s [] = false
member s (x ∷ xs) = let rest = member s xs in if str_eq s x then true else rest

abbrev pub http_roles : List String
http_roles = "api-admin" ∷ "api-ingest" ∷ "ws-gateway" ∷ []

abbrev pub worker_roles : List String
worker_roles = "worker-vlm" ∷ "worker-aggregator" ∷ "worker-notify" ∷ "worker-scheduler" ∷ []

unfoldable pub exec_celery_worker : ProcessSettings → String → Bool → Process
exec_celery_worker S queues beat = executes (
    "celery" ∷ "-A" ∷ "argus.workers.celery_app" ∷ []
    ++ (if beat
        then "beat" ∷ "-l" ∷ S.log_level ∷ []
        else "worker" ∷ "-Q" ∷ queues ∷ "-l" ∷ S.log_level ∷ "--concurrency" ∷ "2" ∷ []))

unfoldable pub run_worker_for_role : ProcessSettings → String → Process
run_worker_for_role S role =
    if str_eq role "worker-vlm"
    then exec_celery_worker S "vlm" false
    else if str_eq role "worker-aggregator"
    then exec_celery_worker S "aggregate" false
    else if str_eq role "worker-notify"
    then exec_celery_worker S "notify" false
    else if str_eq role "worker-scheduler"
    then executes (
        "celery" ∷ "-A" ∷ "argus.workers.celery_app" ∷ "worker" ∷ "-Q" ∷ "schedule" ∷ "-B" ∷ "-l"
        ∷ S.log_level ∷ "--concurrency" ∷ "1" ∷ [])
    else exits 1

unfoldable pub run_http_service : ProcessSettings → String → Process
run_http_service S role =
    if str_eq role "api-admin"
    then serves "api-admin" S.api_host (resolved_api_port S role) S.log_level
    else if str_eq role "api-ingest"
    then serves "api-ingest" S.api_host (resolved_api_port S role) S.log_level
    else if str_eq role "ws-gateway"
    then serves "ws-gateway" S.api_host (resolved_api_port S role) S.log_level
    else fails (value_error "Unsupported HTTP role")

unfoldable pub main : ProcessSettings → String → Process
main S role =
    if member role http_roles
    then run_http_service S role
    else if member role worker_roles
    then run_worker_for_role S role
    else exits 1

-- The registered tasks, by group and name.
pub data TaskName : Type 0 where
  process_ingest_stream analyze_ingest_message aggregate_evidence notify_warning
        activate_scheduled_modes :
      TaskName

abbrev pub group_of : TaskName → String
group_of process_ingest_stream = "vlm"
group_of analyze_ingest_message = "vlm"
group_of aggregate_evidence = "aggregate"
group_of notify_warning = "notify"
group_of activate_scheduled_modes = "schedule"

-- `task_routes`
abbrev pub task_routes : List (String × String)
task_routes =
    ("vlm", "vlm")
    ∷ ("aggregate", "aggregate")
    ∷ ("notify", "notify")
    ∷ ("schedule", "schedule")
    ∷ []

abbrev pub queue_of : String → List (String × String) → Option String
queue_of group [] = none
queue_of group (r ∷ rest) =
    let later = queue_of group rest in if str_eq group r.0 then some r.1 else later
