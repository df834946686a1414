-- ===== src/Sdk/Platform.antt =====
-- The functions of the test host that pass on what node offers: `deepClone`, base64, hashes.
use ai_api_proxy.Common.{Bytes, Option, none, some, Outcome, ok, ◌>>=◌, ◌≡◌, ap, ◌∙◌}
use ai_api_proxy.Common.Strings.{JsString}
use ai_api_proxy.Json.{Json}

-- The encodings of `Buffer` that the host uses.
pub data Encoding : Type 0 where
  utf8 base64 base64url : Encoding

-- `Buffer.from(s, e)`, `buffer.toString(e)`, and the digests of `node:crypto` as hexadecimal text.
pub record Node : Type 0 where
  pub bytes_of : Encoding → JsString → Bytes
  pub text_of : Encoding → Bytes → JsString
  pub sha256 : Bytes → JsString
  pub hmac_sha256 : JsString → Bytes → JsString

-- `deepClone`, where undefined is `none`
unfoldable pub deep_clone :
    {N E : Type 0}
    → (Json N → JsString)
    → (JsString → Outcome E (Json N))
    → Option (Json N)
    → Outcome E (Option (Json N))
deep_clone stringify parse none = ok none
deep_clone stringify parse (some v) = parse (stringify v) >>= λ w. ok (some w)

module _ (node : Node) where
  unfoldable pub b64encode : JsString → JsString
  b64encode s = node.text_of base64 (node.bytes_of utf8 s)

  unfoldable pub b64decode : JsString → JsString
  b64decode s = node.text_of utf8 (node.bytes_of base64 s)

  unfoldable pub b64url_encode : JsString → JsString
  b64url_encode s = node.text_of base64url (node.bytes_of utf8 s)

  unfoldable pub b64url_decode : JsString → JsString
  b64url_decode s = node.text_of utf8 (node.bytes_of base64url s)

  unfoldable pub sha256hex : JsString → JsString
  sha256hex s = node.sha256 (node.bytes_of utf8 s)

  unfoldable pub hmac_sha256hex : JsString → JsString → JsString
  hmac_sha256hex key s = node.hmac_sha256 key (node.bytes_of utf8 s)

  -- If node reads back the bytes that it wrote in both forms of base64, and the text is that of its
  -- bytes, then what is encoded is decoded.
  b64-round_trip :
      (s : JsString)
      → ((content : Bytes) → node.bytes_of base64 (node.text_of base64 content) ≡ content)
      → ((content : Bytes) → node.bytes_of base64url (node.text_of base64url content) ≡ content)
      → node.text_of utf8 (node.bytes_of utf8 s) ≡ s
      → (b64decode (b64encode s) ≡ s) × (b64url_decode (b64url_encode s) ≡ s)
  unfolding b64decode b64encode b64url_decode b64url_encode
  b64-round_trip s plain url text = (
    ap (node.text_of utf8) (plain (node.bytes_of utf8 s)) ∙ text,
    ap (node.text_of utf8) (url (node.bytes_of utf8 s)) ∙ text,
  )
