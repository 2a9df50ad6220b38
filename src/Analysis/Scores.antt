-- ===== src/Analysis/Scores.antt =====
-- runtime/src/argus/services/lens_builder.py: the severity score of an answer of the model.
use argus_services.Prelude.{
  ℕ, ℤ, pos, ◌+ℤ◌, leb_ℤ, String, Bool, false, ◌&&◌, str_eq, List, [], ◌∷◌, if◌then◌else◌,
}
use argus_services.Exec.{Result, ok}
use argus_services.Exec.Fallible.{◌>>=◌}
use argus_services.Domain.Json.{Json, null, int, float, str, Fields}
use argus_services.Domain.Models.{Rule}
use argus_services.Auth.{truthy, get_or_default}

-- `actual == expected` and `actual >= expected` on values that are not two of one of the kinds below,
-- `int(hint)` on values that are no integers, and `int(hint * 3)` on floats; they may raise.
pub record PyValues : Type 0 where
  pub equal : Json → Json → Bool
  pub at_least : Json → Json → Result Bool
  pub to_int : Json → Result ℤ
  pub scaled : ℕ → Result ℤ

abbrev pub field_or_null : String → Fields → Json
field_or_null k = get_or_default k null

abbrev pub py_eq : PyValues → Json → Json → Bool
py_eq S (str a) (str b) = str_eq a b
py_eq S (int a) (int b) = leb_ℤ a b && leb_ℤ b a
py_eq S a b = S.equal a b

-- `actual is not None and actual >= expected`
abbrev pub py_ge : PyValues → Json → Json → Result Bool
py_ge S null b = ok false
py_ge S (int a) (int b) = ok (leb_ℤ b a)
py_ge S a b = S.at_least a b

-- `vlm_result.get(field)`, where no value but a text is a key.
abbrev pub actual_of : Json → Fields → Json
actual_of (str k) r =
    if str_eq k "suspicious" then field_or_null "is_suspicious" r else field_or_null k r
actual_of _ r = null

abbrev pub by_op : PyValues → Json → Json → Json → Result Bool
by_op S (str op) actual expected =
    if str_eq op "eq"
    then ok (py_eq S actual expected)
    else if str_eq op "gte"
    then py_ge S actual expected
    else ok false
by_op S _ actual expected = ok false

unfoldable pub matches_condition : PyValues → Fields → Fields → Result Bool
matches_condition S condition r =
    by_op S (field_or_null "op" condition) (actual_of (field_or_null "field" condition) r)
      (field_or_null "value" condition)

-- The loop over the rules, from a score on.
unfoldable pub rules_score : PyValues → Fields → ℤ → List Rule → Result ℤ
rules_score S r score [] = ok score
rules_score S r score (rule ∷ rules) = matches_condition S rule.condition r >>= λ hit.
    rules_score S r (if hit then score +ℤ rule.severity_weight else score) rules

-- `vlm_result.get("severity_hint") or vlm_result.get("confidence_score", 1)`
abbrev pub hint_of : Fields → Json
hint_of r =
    if truthy (field_or_null "severity_hint" r)
    then field_or_null "severity_hint" r
    else get_or_default "confidence_score" (int (pos 1)) r

unfoldable pub max_one : ℤ → ℤ
max_one n = if leb_ℤ (pos 1) n then n else pos 1

unfoldable pub hint_score : PyValues → Json → Result ℤ
hint_score S (float bits) = S.scaled bits >>= λ n. ok (max_one n)
hint_score S (int n) = ok n
hint_score S v = S.to_int v

unfoldable pub with_hint : PyValues → Fields → ℤ → Result ℤ
with_hint S r score =
    if leb_ℤ score (pos 0) && leb_ℤ (pos 0) score && truthy (field_or_null "is_suspicious" r)
    then hint_score S (hint_of r)
    else ok score

unfoldable pub compute_severity_score : PyValues → Fields → List Rule → Result ℤ
compute_severity_score S r rules = rules_score S r (pos 0) rules >>= with_hint S r
