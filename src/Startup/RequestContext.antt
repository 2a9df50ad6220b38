-- ===== src/Startup/RequestContext.antt =====
-- runtime/src/argus/core/logging.py: the ids of a request, kept for its log records while it is served. The
-- variables of the context are the state; `call_next` and the drawn id are arguments.
use argus_services.Prelude.{◌≡◌, refl, String, Option, none, some, str_eq, if◌then◌else◌}
use argus_services.Exec.{Exec, Result, ok, raised}
use argus_services.Domain.Json.{Json, null, str, Fields, end, field}
use argus_services.Stream.{set_field}

-- `request_id_var` and `tenant_id_var`
pub record RequestContext : Type 0 where
  pub request_id : Option String
  pub tenant_id : Option String

-- The headers that are read, by their names in lower case.
pub record RequestHeaders : Type 0 where
  pub x_request_id : Option String
  pub x_tenant_id : Option String

pub record LogRecord : Type 0 where
  pub levelname : String
  pub logger : String
  pub message : String
  pub exception : Option String

abbrev pub opt_json : Option String → Json
opt_json none = null
opt_json (some s) = str s

abbrev add_exception : Option String → Fields → Fields
add_exception none payload = payload
add_exception (some e) payload = set_field "exception" (str e) payload

-- `JsonLogFormatter.format`, before the JSON is written.
unfoldable pub log_payload : String → String → LogRecord → RequestContext → Fields
log_payload timestamp service_role r c = add_exception r.exception (
    field "timestamp" (str timestamp) (
      field "level" (str r.levelname) (
        field "logger" (str r.logger) (
          field "message" (str r.message) (
            field "service_role" (str service_role) (
              field "request_id" (opt_json c.request_id)
                (field "tenant_id" (opt_json c.tenant_id) end)))))))

abbrev pub id_or : Option String → String → String
id_or none drawn = drawn
id_or (some h) drawn = if str_eq h "" then drawn else h

-- The response with the header `x-request-id`.
abbrev with_header : {R : Type 0} → (String → R → R) → String → Result R → Result R
with_header set_header rid (ok r) = ok (set_header rid r)
with_header set_header rid (raised e) = raised e

-- `RequestContextMiddleware.dispatch`: `finally` puts the two variables back to what they were.
unfoldable pub dispatch :
    {R : Type 0}
    → (String → R → R)
    → String
    → RequestHeaders
    → Exec RequestContext R
    → Exec RequestContext R
dispatch set_header drawn h call_next c =
    let rid = id_or h.x_request_id drawn in
    (
      with_header set_header rid
          (call_next (record { request_id = some rid; tenant_id = h.x_tenant_id })).0,
      c,
    )

-- Whatever the handler does, and also when it raises: the ids are afterwards what they were before.
dispatch-restores :
    {R : Type 0} (set_header : String → R → R) (drawn : String) (h : RequestHeaders)
    (call_next : Exec RequestContext R) (c : RequestContext)
    → (dispatch set_header drawn h call_next c).1 ≡ c
unfolding dispatch
dispatch-restores set_header drawn h call_next c = refl

-- A record that the handler writes before it changes a context carries the id that the response gets.
dispatch-logged :
    {R : Type 0} (set_header : String → R → R) (drawn : String) (h : RequestHeaders)
    (c : RequestContext) (timestamp role : String) (r : LogRecord) (answer : Fields → R)
    (rid : String)
    → id_or h.x_request_id drawn ≡ rid
    → (dispatch set_header drawn h
        (λ inner. (ok (answer (log_payload timestamp role r inner)), inner))
        c).0
      ≡ ok (
          set_header rid (
            answer (
              log_payload timestamp role r
                (record { request_id = some rid; tenant_id = h.x_tenant_id }))))
unfolding dispatch
dispatch-logged set_header drawn h c timestamp role r answer rid same = rw same refl
