-- ===== src/Gemini/Failures.antt =====
-- `mapError`: the error envelope for the client.
pub mod Laws
use ai_api_proxy.Common.Strings.{JsString, js}
use ai_api_proxy.Common.{List, [], ◌∷◌, ◌++◌, Option, none, some}
use ai_api_proxy.Gemini.Contents.{own}
use ai_api_proxy.Gemini.Responses.{Host, own_of}
use ai_api_proxy.Json.{
  Json, null, boolean, number, string, array, object, full_string, string_or_empty, to_object,
}

module _ {N : Type 0} where
  -- `parsed.error` if it is truthy and `typeof parsed.error === "object"`, which arrays are too
  unfoldable pub error_of : Option (Json N) → Option (Json N)
  error_of (some (object ms)) = some (object ms)
  error_of (some (array xs)) = some (array xs)
  error_of _ = none

  -- `typeof e.code === "number" ? e.code : status`
  unfoldable pub code_of : Json N → N → N
  unfolding own
  code_of e status = elim (own e (js "code")) [
    | none ↦ status
    | some v ↦ elim v [
      | number n ↦ n
      | null ↦ status
      | boolean b ↦ status
      | string s ↦ status
      | array xs ↦ status
      | object ms ↦ status
    ]
  ]

  unfoldable pub envelope : JsString → JsString → N → List (JsString × Json N) → Json N
  envelope type text status more = to_object (
      (
        js "error",
        to_object (
            ((js "type", string type)
              ∷ (js "message", string text)
              ∷ (js "status", number status)
              ∷ [])
            ++ more),
      )
      ∷ [])

  -- `if (e.details !== undefined) out.error.details = e.details;`
  unfoldable pub details_field : Json N → List (JsString × Json N)
  unfolding own
  details_field e = elim (own e (js "details")) [ none ↦ [] | some v ↦ (js "details", v) ∷ [] ]

module _ {N : Type 0} (host : Host N) where
  unfoldable pub type_of : Json N → N → JsString
  unfolding own full_string
  type_of e code = elim (full_string (own e (js "status"))) [
    | some s ↦ s
    | none ↦ host.number_string code
  ]

  unfoldable pub error_json : N → JsString → Json N
  unfolding own_of error_of code_of envelope type_of details_field string_or_empty
  error_json status body = elim (error_of (own_of (host.parse body) (js "error"))) [
    | none ↦ envelope (host.number_string status) body status []
    | some e ↦
        envelope (type_of e (code_of e status)) (string_or_empty (own e (js "message")))
          (code_of e status) (details_field e)
  ]

  unfoldable pub map_error : N → JsString → JsString
  unfolding error_json
  map_error status body = host.stringify (error_json status body)
