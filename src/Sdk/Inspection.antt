-- ===== src/Sdk/Inspection.antt =====
-- `inspect`: the text of a value with its secrets masked, cut at 400 characters.
pub mod Secrets
use ai_api_proxy.Common.{
  ℕ, ◌+◌, ◌-◌, List, [], ◌∷◌, ◌++◌, Bool, true, false, ◌||◌, ◌&&◌, leb, ltb, length, take,
  if◌then◌else◌,
}
use ai_api_proxy.Common.Strings.{JsString, js, decimal}
use ai_api_proxy.Json.{
  Json, Items, Members, null, boolean, number, string, array, object, nil, item, end, field,
}
use ai_api_proxy.Web.Objects.{includes}

-- A letter without its case, as the flag `i` compares the letters of the pattern.
unfoldable pub lower : ℕ → ℕ
lower c = if leb 65 c && leb c 90 then c + 32 else c

unfoldable pub lower_all : JsString → JsString
unfolding lower
lower_all [] = []
lower_all (c ∷ s) = lower c ∷ lower_all s

-- `/secret|token|key|password/i.test(k)`
unfoldable pub is_secret : JsString → Bool
unfolding lower_all includes
is_secret k =
    includes (lower_all k) (js "secret")
    || includes (lower_all k) (js "token")
    || includes (lower_all k) (js "key")
    || includes (lower_all k) (js "password")

module _ {N : Type 0} where
  -- The replacer, on the value and all that it holds; the names in an array are its indices.
  unfoldable mutual
    unfolding is_secret

    pub mask : Json N → Json N
    mask (array xs) = array (mask_items xs)
    mask (object ms) = object (mask_members ms)
    mask null = null
    mask (boolean b) = boolean b
    mask (number n) = number n
    mask (string s) = string s

    pub mask_items : Items N → Items N
    mask_items nil = nil
    mask_items (item x xs) = item (mask x) (mask_items xs)

    pub mask_members : Members N → Members N
    mask_members end = end
    mask_members (field k v ms) =
        let inner = mask v in
        field k (if is_secret k then string (js "***") else inner) (mask_members ms)

-- `if (s.length > maxLen) s = s.slice(0, maxLen) + …`
unfoldable pub shorten : JsString → JsString
unfolding decimal
shorten s =
    if ltb 400 (length s)
    then take 400 s ++ (js "…(+" ++ (decimal (length s - 400) ++ js ")"))
    else s

module _ {N : Type 0} (stringify : Json N → JsString) where
  unfoldable pub inspect : Json N → JsString
  unfolding mask shorten
  inspect obj = shorten (stringify (mask obj))
