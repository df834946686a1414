-- ===== src/Gemini/Contents.antt =====
-- The loop of `buildRequest` over the messages: system texts go to one list, the other texts to
-- contents whose roles alternate.
pub mod Laws
pub mod Heard
use ai_api_proxy.Common.Strings.{JsString, js, same_string}
use ai_api_proxy.Common.{
  ℕ, List, [], ◌∷◌, ◌++◌, map, concat, Bool, true, false, ◌||◌, ◌==◌, length, if◌then◌else◌, Option,
  none, some,
}
use ai_api_proxy.Json.{
  Json, Items, Members, null, boolean, number, string, array, object, find, items, array_or_empty,
  string_or_empty,
}

pub data Role : Type 0 where
  model user : Role

unfoldable pub same_role : Role → Role → Bool
same_role model model = true
same_role user user = true
same_role _ _ = false

-- `{ role, parts: [{ text }, …] }`
pub record Content : Type 0 where
  pub role : Role
  pub parts : List JsString

-- The variables `contents` and `sys`.
pub record Conversation : Type 0 where
  pub contents : List Content
  pub sys : List JsString

module _ {N : Type 0} where
  -- `typeof v === "string"` and `v === s`
  unfoldable pub is_string : Option (Json N) → JsString → Bool
  unfolding same_string
  is_string (some (string t)) s = same_string t s
  is_string _ s = false

  -- `v && v.key` for a value `v`, where a value with no such property gives none
  unfoldable pub own : Json N → JsString → Option (Json N)
  unfolding find same_string
  own (object ms) key = find ms key
  own _ key = none

  -- The callback of `content.map`
  unfoldable pub block_text : Json N → JsString
  unfolding own is_string string_or_empty
  block_text p =
      if is_string (own p (js "type")) (js "text") then string_or_empty (own p (js "text")) else []

  unfoldable pub text_of : Option (Json N) → JsString
  unfolding block_text items
  text_of (some (string s)) = s
  text_of (some (array xs)) = concat (map block_text (items xs))
  text_of _ = []

  unfoldable pub is_system : Json N → Bool
  unfolding own is_string
  is_system m =
      is_string (own m (js "role")) (js "system") || is_string (own m (js "role")) (js "developer")

  unfoldable pub role_of : Json N → Role
  unfolding own is_string
  role_of m = if is_string (own m (js "role")) (js "assistant") then model else user

-- `last.parts.push(…)` if the last role is the same, else `contents.push(…)`
unfoldable pub push_text : List Content → Role → JsString → List Content
push_text [] r t = record { role = r; parts = t ∷ [] } ∷ []
push_text (c ∷ []) r t =
    if same_role c.role r
    then record { role = c.role; parts = c.parts ++ t ∷ [] } ∷ []
    else c ∷ record { role = r; parts = t ∷ [] } ∷ []
push_text (c ∷ (d ∷ cs)) r t = c ∷ push_text (d ∷ cs) r t

module _ {N : Type 0} where
  -- One round of the loop. `if (!m) continue` does what the rest does with a value that has no
  -- role and no content.
  unfoldable pub add_message : Conversation → Json N → Conversation
  unfolding push_text
  add_message v m =
      let t = text_of (own m (js "content")) in
      if is_system m
      then if length t == 0 then v else record v { sys = v.sys ++ t ∷ [] }
      else if length t == 0
      then v
      else record v { contents = push_text v.contents (role_of m) t }

  pub add_messages : Conversation → List (Json N) → Conversation
  add_messages v [] = v
  add_messages v (m ∷ ms) = add_messages (add_message v m) ms

  -- `contents` and `sys` behind the loop
  unfoldable pub conversation : Option (Json N) → Conversation
  unfolding add_messages array_or_empty
  conversation messages =
      add_messages (record { contents = []; sys = [] }) (array_or_empty messages)
