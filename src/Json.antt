-- ===== src/Json.antt =====
-- JavaScript values that `JSON.parse` makes, and the reads of them that the plugins use. The type
-- `N` of numbers is a parameter.
pub mod Texts
use ai_api_proxy.Common.Strings.{JsString, same_string}
use ai_api_proxy.Common.{
  List, [], ◌∷◌, Bool, true, false, not, ◌==◌, length, if◌then◌else◌, Option, none, some, Outcome,
  ok, throws,
}

mutual
  pub data Json (N : Type 0) : Type 0 where
    null : Json N
    boolean : Bool → Json N
    number : N → Json N
    string : JsString → Json N
    array : Items N → Json N
    object : Members N → Json N

  pub data Items (N : Type 0) : Type 0 where
    nil : Items N
    item : Json N → Items N → Items N

  pub data Members (N : Type 0) : Type 0 where
    end : Members N
    field : JsString → Json N → Members N → Members N

-- The exceptions that the plugins end with.
pub data PluginError : Type 0 where
  syntax_error type_error uri_error : PluginError
  message : JsString → PluginError

module _ {N : Type 0} where
  unfoldable pub find : Members N → JsString → Option (Json N)
  find end key = none
  find (field k v ms) key = let rest = find ms key in if same_string k key then some v else rest

  -- `v.key` on a value: `undefined` is `none`, and null and undefined throw. The names that the
  -- plugins read are no properties of strings, numbers, booleans or arrays.
  unfoldable pub member : Option (Json N) → JsString → Outcome PluginError (Option (Json N))
  unfolding find same_string
  member none key = throws type_error
  member (some null) key = throws type_error
  member (some (object ms)) key = ok (find ms key)
  member (some _) key = ok none

  unfoldable pub items : Items N → List (Json N)
  items nil = []
  items (item x xs) = x ∷ items xs

  unfoldable pub to_items : List (Json N) → Items N
  to_items [] = nil
  to_items (x ∷ xs) = item x (to_items xs)

  -- `typeof v === "string" && v`, as the string or `none`.
  unfoldable pub full_string : Option (Json N) → Option JsString
  full_string (some (string s)) = if length s == 0 then none else some s
  full_string _ = none

  -- `Array.isArray(v) ? v : []`
  unfoldable pub array_or_empty : Option (Json N) → List (Json N)
  unfolding items
  array_or_empty (some (array xs)) = items xs
  array_or_empty _ = []

  -- `typeof v === "string" ? v : ""`
  unfoldable pub string_or_empty : Option (Json N) → JsString
  string_or_empty (some (string s)) = s
  string_or_empty _ = []

  -- `v ? … : …`, when `is_zero` says which numbers are 0 or NaN
  unfoldable pub truthy : (N → Bool) → Option (Json N) → Bool
  truthy is_zero none = false
  truthy is_zero (some null) = false
  truthy is_zero (some (boolean b)) = b
  truthy is_zero (some (number n)) = not (is_zero n)
  truthy is_zero (some (string s)) = not (length s == 0)
  truthy is_zero (some _) = true

  -- An object literal.
  unfoldable pub to_members : List (JsString × Json N) → Members N
  to_members [] = end
  to_members ((k, v) ∷ fields) = field k v (to_members fields)

  abbrev pub to_object : List (JsString × Json N) → Json N
  to_object fields = object (to_members fields)
