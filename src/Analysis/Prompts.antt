-- ===== src/Analysis/Prompts.antt =====
-- runtime/src/argus/services/lens_builder.py, `build_prompt`: the text that the model is given. `strip`,
-- the JSON of a condition and the text of a number are parameters.
use Prim.Native.String.{◌++◌}
use argus_services.Prelude.{ℤ, ◌≡◌, String, List, [], ◌∷◌, map, str_eq, if◌then◌else◌}
use argus_services.Domain.Json.{Fields}
use argus_services.Domain.Models.{Lens, Rule, Feedback}

pub record PromptTexts : Type 0 where
  pub strip : String → String
  pub json_dumps_safe : Fields → String
  pub text_of_int : ℤ → String

-- `"\n".join(lines)`
abbrev pub join_lines : List String → String
join_lines [] = ""
join_lines (x ∷ []) = x
join_lines (x ∷ (y ∷ ys)) = x ++ ("\n" ++ join_lines (y ∷ ys))

-- `text or default`
abbrev pub or_text : String → String → String
or_text s default = if str_eq s "" then default else s

module _ (P : PromptTexts) where
  abbrev pub rule_line : Rule → String
  rule_line r =
      "- "
      ++ (r.name
          ++ (": "
              ++ (P.json_dumps_safe r.condition
                  ++ (" (weight=" ++ (P.text_of_int r.severity_weight ++ ")")))))

abbrev pub feedback_line : Feedback → String
feedback_line f = "- FALSE POSITIVE example: " ++ f.reasoning

-- The last lines, with `BIOMETRICS_PROHIBITION`.
abbrev pub constraint : String
constraint =
    "Constraint: "
    ++ ("NEVER identify individuals"
        ++ (" or infer biometric attributes.\n"
            ++ "Respond in JSON with fields including is_suspicious, confidence_score, reasoning."))

abbrev pub rules_block : PromptTexts → List Rule → String
rules_block P rules =
    or_text (join_lines (map (rule_line P) rules)) "- No explicit rules configured."

abbrev pub rag_block : List Feedback → String
rag_block feedback =
    or_text (join_lines (map feedback_line feedback))
      "- No prior false-positive feedback for this camera."

unfoldable pub build_prompt : PromptTexts → Lens → List Rule → List Feedback → String
build_prompt P lens rules rag_feedback =
    P.strip lens.system_prompt
    ++ ("\n\n"
        ++ ("Rules to evaluate:\n"
            ++ (rules_block P rules
                ++ ("\n\n"
                    ++ ("Historical false-positive feedback (avoid repeating these mistakes):\n"
                        ++ (rag_block rag_feedback ++ ("\n\n" ++ constraint)))))))

-- `l` stands somewhere in `s`.
abbrev pub IsPartOf : String → String → Type 0
IsPartOf l s = (before after : String) × (s ≡ before ++ (l ++ after))

abbrev pub EndsWith : String → String → Type 0
EndsWith l s = (before : String) × (s ≡ before ++ l)
