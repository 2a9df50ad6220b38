-- ===== src/Stream/DeadLetters.antt =====
-- runtime/src/argus/services/redis.py, `move_to_dlq`: the fields of a message that failed, with the error,
-- on the stream of the dead letters.
use argus_services.Prelude.{
  String, ◌≡◌, refl, ap, ◌∙◌, some, str_eq, eq_iff, Bool-cases, inl, inr, arith, if◌then◌else◌,
}
use argus_services.Domain.Json.{Json, str, Fields, end, field, get_field}
use argus_services.Stream.{Codec, set_field, xadd_payload}

-- `{**original_fields, "error": error}`, as `xadd` writes it.
unfoldable move_to_dlq : Codec → Fields → String → Fields
move_to_dlq C original_fields error = xadd_payload C (set_field "error" (str error) original_fields)

-- The fields that a read of a stream gives are texts.
abbrev AreTexts : Fields → Type 0
AreTexts end = Unit
AreTexts (field k v rest) = ((s : String) × (v ≡ str s)) × AreTexts rest

xadd_payload-texts : (C : Codec) (fs : Fields) → AreTexts fs → xadd_payload C fs ≡ fs
unfolding xadd_payload
xadd_payload-texts C end h = refl
xadd_payload-texts C (field k v rest) ((s, is_text), h) =
    rw is_text (ap (field k (str s)) (xadd_payload-texts C rest h))

set_field-AreTexts : (k s : String) (fs : Fields) → AreTexts fs → AreTexts (set_field k (str s) fs)
unfolding set_field
set_field-AreTexts k s end h = ((s, refl), tt)
set_field-AreTexts k s (field j v rest) h = elim (Bool-cases (str_eq j k)) [
  | inl same ↦ rw same ((s, refl), h.1)
  | inr other ↦ rw other (h.0, set_field-AreTexts k s rest h.1)
]

get_field-set :
    (k j : String) (v : Json) (fs : Fields)
    → get_field j (set_field k v fs) ≡ (if str_eq k j then some v else get_field j fs)
unfolding set_field get_field
get_field-set k j v end = refl
get_field-set k j v (field i w rest) =
    ground (arith, eq_iff k j, eq_iff i k, eq_iff i j, get_field-set k j v rest)

-- A dead letter carries its error, and every other field of the message as the stream gave it.
move_to_dlq_keeps :
    (C : Codec) (original_fields : Fields) (error key : String)
    → AreTexts original_fields
    → get_field key (move_to_dlq C original_fields error)
      ≡ (if str_eq "error" key then some (str error) else get_field key original_fields)
unfolding move_to_dlq
move_to_dlq_keeps C original_fields error key h =
    ap (get_field key) (
      xadd_payload-texts C (set_field "error" (str error) original_fields)
        (set_field-AreTexts "error" error original_fields h))
    ∙ get_field-set "error" key (str error) original_fields
