-- ===== src/Errors.antt =====
-- runtime/src/argus/core/exceptions.py: the JSON body of an error. `str` of other values than texts is a parameter.
use argus_services.Prelude.{ℕ, pos, String, ◌==◌, ◌≡◌, refl, Option, none, some, if◌then◌else◌}
use argus_services.Domain.Json.{Json, null, int, str, obj, Fields, end, field, get_field}

pub record JsonResponse : Type 0 where
  pub status_code : ℕ
  pub content : Fields

-- `details is not None`
abbrev pub details_part : Option Json → Fields
details_part none = end
details_part (some null) = end
details_part (some v) = field "details" v end

unfoldable pub error_body : ℕ → String → Json → Option Json → Fields
error_body status_code code message details =
    field "error"
      (obj (
        field "code" (str code) (
          field "message" message (field "status" (int (pos status_code)) (details_part details)))))
      end

-- `code_map.get(status, "http_error")`
abbrev pub code_of : ℕ → String
code_of status =
    if status == 401
    then "unauthorized"
    else if status == 403
    then "forbidden"
    else if status == 409
    then "conflict"
    else if status == 422
    then "unprocessable_entity"
    else "http_error"

module _ (str_of : Json → String) where
  -- `detail.get("message", str(detail))`, or the text of the detail.
  abbrev pub message_of : Json → Json
  message_of (obj fs) = elim (get_field "message" fs) [ none ↦ str (str_of (obj fs)) | some m ↦ m ]
  message_of (str s) = str s
  message_of v = str (str_of v)

  abbrev pub details_of : Json → Option Json
  details_of (obj fs) = get_field "details" fs
  details_of v = none

  unfoldable pub http_exception_handler : ℕ → Json → JsonResponse
  http_exception_handler status detail = record {
    status_code = status;
    content = error_body status (code_of status) (message_of detail) (details_of detail);
  }

-- The argument is `exc.errors()`.
unfoldable pub validation_exception_handler : Json → JsonResponse
validation_exception_handler errors = record {
  status_code = 422;
  content = error_body 422 "validation_error" (str "Request validation failed") (some errors);
}

-- `body["error"]["status"]`
abbrev pub status_in : Fields → Option Json
status_in fs = elim (get_field "error" fs) [ some (obj e) ↦ get_field "status" e | _ ↦ none ]

-- The body names the status that the response has.
pub http_exception_handler_status :
    (str_of : Json → String) (status : ℕ) (detail : Json)
    → status_in (http_exception_handler str_of status detail).content
      ≡ some (int (pos (http_exception_handler str_of status detail).status_code))
unfolding http_exception_handler error_body get_field
http_exception_handler_status str_of status detail = refl
