-- ===== src/Gateway/Messages.antt =====
-- runtime/src/argus/ws/handlers.py, the loop of a socket: what it reads, and how the loop ends. Every end
-- but `waiting` is followed by the `finally` that takes the socket out.
use argus_services.Prelude.{
  String, Bool, true, false, not, ◌&&◌, ◌≡◌, refl, Option, none, some, List, [], ◌∷◌, ◌++◌, str_eq,
  if◌then◌else◌,
}
use argus_services.Exec.{Exn, Result, ok, raised, attribute_error}
use argus_services.Exec.Fallible.{◌>>=◌}
use argus_services.Domain.Json.{Json, str, obj, Fields, end, get_field}
use argus_services.Auth.{truthy, get_or_default}

-- A text, read by `json.loads` (`none` is its `JSONDecodeError`), or the end of the connection.
pub data Received : Type 0 where
  text : Option Json → Received
  gone : Received

pub data LoopEnd : Type 0 where
  waiting left mismatched : LoopEnd
  failed : Exn → LoopEnd

-- `value.get`, which only a dict has.
unfoldable pub as_dict : Json → Result Fields
as_dict (obj fs) = ok fs
as_dict v = raised (attribute_error "get")

unfoldable pub is_text : String → Option Json → Bool
is_text s (some (str t)) = str_eq t s
is_text s v = false

-- `payload_tid and payload_tid != tenant_id`
unfoldable pub names_other : String → Option Json → Bool
names_other tenant_id none = false
names_other tenant_id (some v) = truthy v && not (is_text tenant_id (some v))

-- `false` closes the socket with 4003.
unfoldable pub on_message : String → Json → Result Bool
on_message tenant_id msg = do
  fs ← as_dict msg
  let subscribed = (do
    payload ← as_dict (get_or_default "payload" (obj end) fs)
    ok (not (names_other tenant_id (get_field "tenant_id" payload)))) in
      if is_text "pong" (get_field "type" fs)
      then ok true
      else if is_text "subscribe" (get_field "type" fs)
      then subscribed
      else ok true

abbrev pub go_on : Result Bool → LoopEnd → LoopEnd
go_on (ok true) later = later
go_on (ok false) later = mismatched
go_on (raised e) later = failed e

unfoldable pub listen : String → List Received → LoopEnd
listen tenant_id [] = waiting
listen tenant_id (gone ∷ rest) = left
listen tenant_id (text none ∷ rest) = listen tenant_id rest
listen tenant_id (text (some msg) ∷ rest) = go_on (on_message tenant_id msg) (listen tenant_id rest)

abbrev pub or_else : LoopEnd → LoopEnd → LoopEnd
or_else waiting later = later
or_else left later = left
or_else mismatched later = mismatched
or_else (failed e) later = failed e

go_on-or_else : (r : Result Bool) (a b : LoopEnd) → go_on r (or_else a b) ≡ or_else (go_on r a) b
go_on-or_else (ok true) a b = refl
go_on-or_else (ok false) a b = refl
go_on-or_else (raised e) a b = refl

-- The loop reads on where it stopped: once it has ended, nothing that comes later counts.
pub listen-append :
    (tenant_id : String) (xs ys : List Received)
    → listen tenant_id (xs ++ ys) ≡ or_else (listen tenant_id xs) (listen tenant_id ys)
unfolding listen
listen-append tenant_id [] ys = refl
listen-append tenant_id (gone ∷ xs) ys = refl
listen-append tenant_id (text none ∷ xs) ys = listen-append tenant_id xs ys
listen-append tenant_id (text (some msg) ∷ xs) ys =
    rw (listen-append tenant_id xs ys)
      (go_on-or_else (on_message tenant_id msg) (listen tenant_id xs) (listen tenant_id ys))
