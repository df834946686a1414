-- ===== src/Sdk/Tests.antt =====
-- The functions of the test host at concrete values.
use ai_api_proxy.Common.{
  ℕ, ◌==◌, [], ◌∷◌, ◌++◌, true, Option, none, some, Outcome, ok, throws, ◌≡◌, ◌⊎◌, refl,
}
use ai_api_proxy.Common.Strings.{JsString, js, same_string}
use ai_api_proxy.Json.{Json, Members, number, string, object, end, field, find}
use ai_api_proxy.Sdk.Inspection.{inspect, is_secret}
use ai_api_proxy.Sdk.Inspection.Secrets.{
  in_object, no_members, both_members, secret, same, inspect-SameBut,
}
use ai_api_proxy.Sdk.Objects.{deep_merge}
use ai_api_proxy.Sdk.Objects.Merged.{merged, find-deep_merge}
use ai_api_proxy.Sdk.Parts.{TestHost, Opts, Exported, factory, key, source_of, load_package}
use ai_api_proxy.Sdk.Parts.Keys.{load_package-key}
use ai_api_proxy.Sdk.Paths.{split_first, get, set}
use ai_api_proxy.Sdk.Paths.Laws.{LeadsThroughArray, get-set}
use ai_api_proxy.Sdk.Storage.{storage_get}
use ai_api_proxy.Sdk.Storage.Namespaces.{set_call, delete_call, after, cell, storage_get-after}
use ai_api_proxy.Sdk.Templates.{template}

-- `{ a: { x: 1 } }`, `{ a: { y: 2 } }` and `{ a: { x: 1, y: 2 } }`
abbrev with_x : Members ℕ
with_x = field (js "a") (object (field (js "x") (number 1) end)) end

abbrev with_y : Members ℕ
with_y = field (js "a") (object (field (js "y") (number 2) end)) end

abbrev with_both : Members ℕ
with_both = field (js "a") (object (field (js "x") (number 1) (field (js "y") (number 2) end))) end

test_merge : deep_merge with_x with_y ≡ with_both
unfolding deep_merge same_string
test_merge = refl

find-deep_merge_example :
    find (deep_merge with_x with_y) (js "a") ≡ merged (find with_x (js "a")) (find with_y (js "a"))
unfolding find
find-deep_merge_example = find-deep_merge with_x with_y (js "a") (refl, tt)

-- No number is a name.
abbrev no_element : Json ℕ → JsString → Option (Json ℕ)
no_element v k = none

test_get : get no_element (object with_both) (js "a.y") ≡ some (number 2)
unfolding get find same_string
test_get = refl

test_set : set with_x (js "a.y") (number 2) ≡ some with_both
unfolding set same_string
test_set = refl

get-set_example :
    LeadsThroughArray no_element with_x (js "a" ∷ js "y" ∷ [])
    ⊎ ((out : Members ℕ) × (set with_x (js "a.y") (number 2) ≡ some out)
        × (get no_element (object out) (js "a.y") ≡ some (number 2))
        × ((same_string (js "a") (js "b") ≡ true) ⊎ (find out (js "b") ≡ find with_x (js "b"))))
unfolding split_first
get-set_example = get-set no_element with_x (js "a.y") (js "b") (number 2)

test_template :
    template {N = ℕ}
      (λ v. js "gpt")
      (field (js "model") (string (js "gpt")) end)
      (js "/v1/{model}/{other}")
    ≡ js "/v1/gpt/{other}"
unfolding template find same_string
test_template = refl

-- `{ config: { Api_Key: key }, n: 1 }`
abbrev with_secret : JsString → Members ℕ
with_secret k =
    field (js "config") (object (field (js "Api_Key") (string k) end))
      (field (js "n") (number 1) end)

abbrev names_only : Json ℕ → JsString
names_only (object (field k v ms)) = k
names_only v = []

inspect-SameBut_example :
    inspect names_only (object (with_secret (js "sk-1")))
    ≡ inspect names_only (object (with_secret (js "sk-2")))
unfolding is_secret
inspect-SameBut_example = inspect-SameBut names_only (
    in_object (
      both_members (in_object (secret refl no_members))
        (both_members (same (number 1)) no_members)))

storage_get-after_example :
    storage_get {N = ℕ} (js "a") (js "k") (
      after
        (set_call (js "a") (js "k") (js "1")
          ∷ set_call (js "b") (js "k") (js "2")
          ∷ delete_call (js "a") (js "other")
          ∷ [])
        end)
    ≡ string (js "1")
unfolding cell same_string storage_get find
storage_get-after_example =
    storage_get-after (js "a") (js "k")
      (set_call (js "a") (js "k") (js "1")
        ∷ set_call (js "b") (js "k") (js "2")
        ∷ delete_call (js "a") (js "other")
        ∷ [])
      end (refl, tt) ((refl, tt), ((refl, tt), ((refl, tt), tt)))

-- Every file holds its path, `{}` is all that parses, and a part exports its configuration.
abbrev read_path : JsString → Outcome ℕ JsString
read_path p = ok p

abbrev join_slash : JsString → JsString → JsString
join_slash dir p = dir ++ (js "/" ++ p)

abbrev parse_empty : JsString → Outcome ℕ (Json ℕ)
parse_empty text = ok (object end)

abbrev export_config : JsString → TestHost ℕ → TestHost ℕ × Outcome ℕ (Exported ℕ (Json ℕ) ℕ)
export_config src host = (host, ok (factory (λ config host. (host, ok config))))

abbrev with_keys : Opts ℕ
with_keys = record { entry = none; router = true; config = none; keys = some (string (js "sk-1")) }

abbrev fresh_host : TestHost ℕ
fresh_host = record { key_store = none; records = []; storage_data = end }

load_package-key_example :
    ((e : ℕ) × (source_of read_path join_slash parse_empty (js "pkg") with_keys ≡ throws e)
      × (load_package
            (λ n. n == 0)
            export_config
            read_path
            join_slash
            parse_empty
            (js "pkg")
            with_keys
            fresh_host
          ≡ (fresh_host, throws e)))
    ⊎ (key
          (load_package
            (λ n. n == 0)
            export_config
            read_path
            join_slash
            parse_empty
            (js "pkg")
            with_keys
            fresh_host).0
        ≡ some (string (js "sk-1")))
load_package-key_example =
    load_package-key (λ n. n == 0) export_config read_path join_slash parse_empty (js "pkg")
      with_keys fresh_host (λ src host. (refl, λ config host. refl))
