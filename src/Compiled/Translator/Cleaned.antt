-- ===== src/Compiled/Translator/Cleaned.antt =====
-- The text of a model's answer without the code fences around it, in src/compiled/translator.rs.
use mongocore.Prelude.{◌==◌, if◌then◌else◌, unwrap_or, Text, codes, [], ◌∷◌, Option, none, some}
use mongocore.Operations.Json.{trim}

-- `strip_prefix` and `strip_suffix`.
unfoldable pub strip_prefix : Text → Text → Option Text
strip_prefix [] s = some s
strip_prefix (c ∷ prefix) [] = none
strip_prefix (c ∷ prefix) (d ∷ s) =
    let rest = strip_prefix prefix s in if c == d then rest else none

unfoldable pub reverse_onto : Text → Text → Text
reverse_onto [] t = t
reverse_onto (c ∷ s) t = reverse_onto s (c ∷ t)

unfoldable pub strip_suffix : Text → Text → Option Text
strip_suffix suffix s = elim (strip_prefix (reverse_onto suffix []) (reverse_onto s [])) [
  | none ↦ none
  | some t ↦ some (reverse_onto t [])
]

-- The code fences around an answer.
unfoldable pub cleaned : Text → Text
cleaned response =
    let text = trim response in
    elim (strip_prefix (codes "```") text) [
      | none ↦ text
      | some after_fence ↦
          let without_start = unwrap_or after_fence (strip_prefix (codes "```json") text) in
          trim (unwrap_or without_start (strip_suffix (codes "```") without_start))
    ]
