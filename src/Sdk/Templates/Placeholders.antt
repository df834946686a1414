-- ===== src/Sdk/Templates/Placeholders.antt =====
-- What `template` makes of a text up to its first placeholder.
use ai_api_proxy.Common.{
  ℕ, zero, suc, [], ◌∷◌, ◌++◌, true, false, ◌==◌, ◌<◌, length, some, ◌≡◌, refl, ap, ◌∙◌, arith,
}
use ai_api_proxy.Common.Strings.{JsString}
use ai_api_proxy.Json.{Json, Members}
use ai_api_proxy.Sdk.Templates.{
  is_word, word_before_brace, placeholder, filled, template_from, template,
}

-- A text of the characters of `\w`.
abbrev pub IsWord : JsString → Type 0
IsWord [] = Unit
IsWord (c ∷ s) = (is_word c ≡ true) × IsWord s

-- A text without `{`.
abbrev pub IsPlain : JsString → Type 0
IsPlain [] = Unit
IsPlain (c ∷ s) = ((c == 0x7b) ≡ false) × IsPlain s

is_word-brace : (c : ℕ) → is_word c ≡ true → (c == 0x7d) ≡ false
unfolding is_word
is_word-brace c h = ground arith

word_before_brace_lem :
    (w rest : JsString) → IsWord w → word_before_brace (w ++ 0x7d ∷ rest) ≡ some w
unfolding word_before_brace
word_before_brace_lem [] rest h = refl
word_before_brace_lem (c ∷ w) rest (here, h) =
    rw (is_word-brace c here) (rw here (rw (word_before_brace_lem w rest h) refl))

placeholder_lem :
    (w rest : JsString) → IsWord w → 0 < length w → placeholder (w ++ 0x7d ∷ rest) ≡ some w
unfolding placeholder
placeholder_lem w rest h some_length =
    let filled_in : (length w == 0) ≡ false = ground arith in
    rw (word_before_brace_lem w rest h, filled_in, placeholder) refl

module _ {N : Type 0} (to_string : Json N → JsString) (vars : Members N) where
  template_from-skip :
      (w rest : JsString)
      → template_from to_string vars (suc (length w)) (w ++ 0x7d ∷ rest)
        ≡ template_from to_string vars zero rest
  unfolding template_from
  template_from-skip [] rest = refl
  template_from-skip (c ∷ w) rest = template_from-skip w rest

  template_from-filled :
      (w rest : JsString)
      → IsWord w
      → 0 < length w
      → template_from to_string vars zero (0x7b ∷ (w ++ 0x7d ∷ rest))
        ≡ filled to_string vars w ++ template_from to_string vars zero rest
  unfolding template_from
  template_from-filled w rest h some_length =
      rw (placeholder_lem w rest h some_length, template_from)
        (ap (λ s. filled to_string vars w ++ s) (template_from-skip w rest))

  template_from-plain :
      (before s : JsString)
      → IsPlain before
      → template_from to_string vars zero (before ++ s)
        ≡ before ++ template_from to_string vars zero s
  unfolding template_from
  template_from-plain [] s h = refl
  template_from-plain (c ∷ before) s (here, h) =
      rw (here, template_from) (ap (λ t. c ∷ t) (template_from-plain before s h))

  -- `template` keeps the text in front of the first `{`, and replaces a placeholder of word
  -- characters that stands there, by the value of its name, or by itself if there is none; the value
  -- is not searched for placeholders, and the text behind is treated as a text of its own.
  template-filled :
      (before w rest : JsString)
      → IsPlain before
      → IsWord w
      → 0 < length w
      → template to_string vars (before ++ (0x7b ∷ (w ++ 0x7d ∷ rest)))
        ≡ before ++ (filled to_string vars w ++ template to_string vars rest)
  unfolding template
  template-filled before w rest plain word some_length =
      template_from-plain before (0x7b ∷ (w ++ 0x7d ∷ rest)) plain
      ∙ ap (λ t. before ++ t) (template_from-filled w rest word some_length)
