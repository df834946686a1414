-- ===== src/Web/Tests/Engine.antt =====
-- A small engine: it reads "{}" and numbers of one digit, and writes little.
use ai_api_proxy.Common.{◌-◌, [], ◌∷◌, Bool, ◌&&◌, ◌==◌, leb, length, if◌then◌else◌, none, some}
use ai_api_proxy.Common.Strings.{JsString, js}
use ai_api_proxy.Json.{string, number, object, end}
use ai_api_proxy.Web.Values.{Engine, Value, Double, double}

-- Number of a text of one digit; 1000 stands for NaN.
abbrev pub digit_of : Value → Double
digit_of (string (c ∷ [])) = if leb 48 c && leb c 57 then double (c - 48) else double 1000
digit_of (number n) = n
digit_of _ = double 1000

abbrev pub is_1000 : Double → Bool
is_1000 (double n) = n == 1000

abbrev pub text_of : Value → JsString
text_of (string s) = s
text_of _ = js "?"

abbrev pub sample_engine : Engine
sample_engine = record {
  parse = λ s. if length s == 2 then some (object end) else none;
  stringify = text_of;
  stringify_indented = text_of;
  encode_uri_component = λ s. some s;
  to_string = text_of;
  to_number = digit_of;
  is_nan = is_1000;
  from_count = λ n. double n;
  search_params = λ fields. [];
  fixed_percent = λ a b. [];
  locale_time = λ t. [];
}
