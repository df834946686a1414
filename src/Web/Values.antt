-- ===== src/Web/Values.antt =====
-- What the console uses of JavaScript and of the browser: JSON values, numbers as text, `trim`.
use ai_api_proxy.Common.{
  ℕ, List, [], ◌∷◌, Bool, ◌||◌, ◌&&◌, ◌==◌, leb, length, if◌then◌else◌, Option,
}
use ai_api_proxy.Common.Strings.{JsString}
unfoldable pub use ai_api_proxy.Common.Strings.{digits_onto, decimal}
use ai_api_proxy.Json.{Json}

-- A number of JSON, by the bits of the double.
pub data Double : Type 0 where
  double : ℕ → Double

abbrev pub Value : Type 0
Value = Json Double

-- The functions of the engine that the console calls. `none` is an exception.
pub record Engine : Type 0 where
  pub parse : JsString → Option Value
  -- `JSON.stringify(v)` and `JSON.stringify(v, null, 2)`
  pub stringify : Value → JsString
  pub stringify_indented : Value → JsString
  pub encode_uri_component : JsString → Option JsString
  -- `String(v)`, `Number(v)` and `Number.isNaN`
  pub to_string : Value → JsString
  pub to_number : Value → Double
  pub is_nan : Double → Bool
  -- the number of a count
  pub from_count : ℕ → Double
  -- `new URLSearchParams(fields).toString()`
  pub search_params : List (JsString × JsString) → JsString
  -- `((a / b) * 100).toFixed(1)`, and `new Date(t).toLocaleString('zh-CN', { hour12: false })`
  pub fixed_percent : ℕ → ℕ → JsString
  pub locale_time : ℕ → JsString

-- White space and line terminators.
unfoldable pub is_space : ℕ → Bool
is_space c =
    (leb 9 c && leb c 13)
    || c == 32
    || c == 0xa0
    || c == 0x1680
    || (leb 0x2000 c && leb c 0x200a)
    || c == 0x2028
    || c == 0x2029
    || c == 0x202f
    || c == 0x205f
    || c == 0x3000
    || c == 0xfeff

unfoldable pub trim_start : JsString → JsString
unfolding is_space
trim_start [] = []
trim_start (c ∷ s) = let rest = trim_start s in if is_space c then rest else c ∷ s

unfoldable pub trim_end : JsString → JsString
unfolding is_space
trim_end [] = []
trim_end (c ∷ s) = let rest = trim_end s in if is_space c && length rest == 0 then [] else c ∷ rest

-- `s.trim()`
unfoldable pub trim : JsString → JsString
unfolding trim_start trim_end
trim s = trim_end (trim_start s)
