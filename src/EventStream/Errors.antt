-- ===== src/EventStream/Errors.antt =====
-- The errors that eventstream.js throws, one constructor for each message.
use ai_api_proxy.Common.Strings.{JsString}
use ai_api_proxy.Common.{ℕ, Outcome}

-- `no_fuel` is no error of the source: the rounds given to a loop of the model ran out.
pub data DecodeError : Type 0 where
  not_a_buffer : DecodeError
  prelude_crc_mismatch : DecodeError
  invalid_frame_length : DecodeError
  message_crc_mismatch : DecodeError
  truncated_frame : DecodeError
  invalid_utf8 : DecodeError
  invalid_name_length : DecodeError
  truncated_int8 truncated_int16 truncated_int32 truncated_int64 : DecodeError
  truncated_value_length invalid_value_length : DecodeError
  truncated_timestamp truncated_uuid : DecodeError
  unknown_value_type : ℕ → DecodeError
  duplicate_header : JsString → DecodeError
  no_fuel : DecodeError

abbrev pub Decode {ℓ} : Type ℓ → Type ℓ
Decode A = Outcome DecodeError A
