-- ===== src/Protocol/Tests.antt =====
-- The properties of the protocol at concrete inputs.
use prometheus_ws_proxy_clie.Base.{
  ℕ, ◌+◌, ◌/◌, ◌%◌, ◌≡◌, ◌↔◌, refl, ◌||◌, some, [], ◌∷◌, ok, err, Bytes, OwnedString, arith, ltb,
  ◌==◌, if◌then◌else◌, length, codes, replicate,
}
use prometheus_ws_proxy_clie.Protocol.{
  ResourceResponse, JsonStruct, JsonWriter, new_response, IncomingMessage, request, validate,
  FieldLimitError,
}
use prometheus_ws_proxy_clie.Protocol.Length.{
  response_json_encoded_len, response_form_encoded_len, json_response_len, form_response_len,
  fitting, encoded_len-fitting, json_byte_len, form_byte_len, decimal_digits,
}
use prometheus_ws_proxy_clie.Protocol.Encoding.{
  compact, IsSerdeJson, response_json, response_json_precheck,
}
use prometheus_ws_proxy_clie.Protocol.Limits.{Reports, IsWithinLimits, validate-Decides}

abbrev hex_digit : ℕ → ℕ
hex_digit n = if ltb n 10 then b'0' + n else 87 + n

-- The escapes of RFC 8259 as `serde_json` chooses them.
abbrev pub rfc_escape : ℕ → Bytes
rfc_escape b =
    if b == b'"' || b == 0x5c
    then 0x5c ∷ b ∷ []
    else if b == 0x08
    then codes "\\b"
    else if b == 0x09
    then codes "\\t"
    else if b == 0x0a
    then codes "\\n"
    else if b == 0x0c
    then codes "\\f"
    else if b == 0x0d
    then codes "\\r"
    else if ltb b 0x20
    then 0x5c ∷ b'u' ∷ b'0' ∷ b'0' ∷ hex_digit (b / 16) ∷ hex_digit (b % 16) ∷ []
    else b ∷ []

abbrev pub rfc_writer : JsonWriter
rfc_writer = record {
  to_bytes = λ fs. some (compact rfc_escape fs);
  grown_capacity = λ _ bs. length bs;
}

pub rfc_writer-IsSerdeJson : IsSerdeJson rfc_writer
rfc_writer-IsSerdeJson = record {
  escape = rfc_escape;
  short = omega arith;
  control = λ b h distinct. ground arith;
  plain = λ b h distinct. ground arith;
  writes = λ fs. refl;
}

abbrev pub exact : Bytes → OwnedString
exact bs = record { bytes = bs; capacity = length bs }

abbrev long_uid : IncomingMessage
long_uid = request (exact (replicate 129 b'u')) (exact (codes "node"))

abbrev long_uid_error : FieldLimitError
long_uid_error = record { field = "uid"; length = 129; limit = 128 }

validate-Decides_example :
    ((validate long_uid ≡ ok tt) ↔ IsWithinLimits long_uid)
    × ((validate long_uid ≡ err long_uid_error) ↔ Reports long_uid_error long_uid)
validate-Decides_example = validate-Decides long_uid long_uid_error

abbrev escaped_response : ResourceResponse
escaped_response = new_response (exact (codes "u")) 201 (exact (0 ∷ b'"' ∷ []))

encoded_len-fitting_example :
    (response_json_encoded_len escaped_response ≡ fitting (json_response_len escaped_response))
    × (response_form_encoded_len escaped_response ≡ fitting (form_response_len escaped_response))
encoded_len-fitting_example = encoded_len-fitting escaped_response

response_json_precheck_example :
    (s : OwnedString) × (response_json rfc_writer
        (new_response (exact (codes "u")) 201 (exact (codes "ok")))
      ≡ some s)
    × (response_json_encoded_len (new_response (exact (codes "u")) 201 (exact (codes "ok")))
        ≡ fitting (length s.bytes))
response_json_precheck_example =
    response_json_precheck rfc_writer rfc_writer-IsSerdeJson (exact (codes "u"))
      (exact (codes "ok")) 201 (omega arith)

json_length_of_escapes :
    response_json_encoded_len (new_response (exact (codes "u")) 201 (exact (0 ∷ b'"' ∷ [])))
    ≡ some 60
unfolding response_json_encoded_len json_byte_len decimal_digits
    prometheus_ws_proxy_clie.Protocol.Length.json_string_content_encoded_len
json_length_of_escapes = refl
