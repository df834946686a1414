-- ===== src/Sdk/Templates.antt =====
-- `template`: the text with the values of its placeholders.
pub mod Placeholders
use ai_api_proxy.Common.{
  ℕ, zero, suc, ◌+◌, List, [], ◌∷◌, ◌++◌, Bool, true, false, ◌||◌, ◌&&◌, ◌==◌, leb, length,
  if◌then◌else◌, Option, none, some,
}
use ai_api_proxy.Common.Strings.{JsString}
use ai_api_proxy.Json.{Json, Members, find}

-- `\w`
unfoldable pub is_word : ℕ → Bool
is_word c = (leb 48 c && leb c 57) || (leb 65 c && leb c 90) || c == 95 || (leb 97 c && leb c 122)

-- The name of a placeholder: `\w+` in front of `}`.
unfoldable pub word_before_brace : JsString → Option JsString
unfolding is_word
word_before_brace [] = none
word_before_brace (c ∷ s) =
    let rest = word_before_brace s in
    if c == 0x7d
    then some []
    else if is_word c
    then elim rest [ none ↦ none | some w ↦ some (c ∷ w) ]
    else none

-- The placeholder that begins behind a `{`, of one character at least.
unfoldable pub placeholder : JsString → Option JsString
unfolding word_before_brace
placeholder s = elim (word_before_brace s) [
  | none ↦ none
  | some w ↦ if length w == 0 then none else some w
]

module _ {N : Type 0} (to_string : Json N → JsString) (vars : Members N) where
  -- `k in vars ? String(vars[k]) : `{${k}}``
  unfoldable pub filled : JsString → JsString
  filled k = elim (find vars k) [ none ↦ 0x7b ∷ (k ++ 0x7d ∷ []) | some v ↦ to_string v ]

  -- The replacement; `skip` characters of the text are those of a placeholder.
  unfoldable pub template_from : ℕ → JsString → JsString
  unfolding placeholder filled
  template_from skip [] = []
  template_from (suc skip) (c ∷ s) = template_from skip s
  template_from zero (c ∷ s) = elim (if c == 0x7b then placeholder s else none) [
    | none ↦ c ∷ template_from zero s
    | some w ↦ filled w ++ template_from (suc (length w)) s
  ]

  unfoldable pub template : JsString → JsString
  unfolding template_from
  template s = template_from zero s
