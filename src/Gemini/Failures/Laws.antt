-- ===== src/Gemini/Failures/Laws.antt =====
-- What `mapError` shows of the upstream's error.
use ai_api_proxy.Common.Strings.{JsString, js}
use ai_api_proxy.Common.{Option, some, ◌≡◌}
use ai_api_proxy.Gemini.Contents.{own}
use ai_api_proxy.Gemini.Responses.{Host, own_of}
use ai_api_proxy.Json.Texts.{IsObject}
use ai_api_proxy.Json.{Json, number, string}

module _ {N : Type 0} where
  abbrev in_envelope : Json N → JsString → Option (Json N)
  in_envelope out key = own_of (own out (js "error")) key

  -- The client reads these in the envelope.
  abbrev pub Shows : Json N → JsString → JsString → N → Option (Json N) → Type 0
  Shows out type text n details =
      (in_envelope out (js "type") ≡ some (string type))
      × (in_envelope out (js "message") ≡ some (string text))
      × (in_envelope out (js "status") ≡ some (number n))
      × (in_envelope out (js "details") ≡ details)

module _ {N : Type 0} (host : Host N) where
  -- The body is a text of JSON whose `error` is this object or array.
  abbrev pub Reports : JsString → Json N → Type 0
  Reports body e =
      (p : Json N) × (host.parse body ≡ some p) × (own p (js "error") ≡ some e) × IsObject e
