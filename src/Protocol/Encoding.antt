-- ===== src/Protocol/Encoding.antt =====
-- src/protocol.rs: `response_json`, and the agreement of the length calculation with the
-- serializer. What is assumed of `serde_json` is its documented output: compact JSON, a struct's
-- fields in order, strings with the escapes of RFC 8259, numbers in decimal.
use prometheus_ws_proxy_clie.Base.{
  ℕ, ◌/◌, ◌≤◌, ◌<◌, ◌≡◌, ◌≢◌, refl, Option, none, some, [], ◌∷◌, ◌++◌, Bytes, OwnedString, arith,
  All, length, length-append, codes, total, decimal, length-decimal_from,
}
use prometheus_ws_proxy_clie.Protocol.{
  ResourceResponse, new_response, JsonValue, text, number, JsonStruct, JsonWriter, response_fields,
}
use prometheus_ws_proxy_clie.Protocol.Length.{
  json_byte_len, json_content_len, json_response_len, decimal_digits, response_json_encoded_len,
  response_json_encoded_len-fitting, fitting,
}

-- `unwrap_or_default`
abbrev pub or_zero : Option ℕ → ℕ
or_zero none = 0
or_zero (some n) = n

unfoldable pub response_json : JsonWriter → ResourceResponse → Option OwnedString
response_json w response =
    let capacity = or_zero (response_json_encoded_len response) in
    elim (w.to_bytes (response_fields response)) [
      | none ↦ none
      | some bytes ↦ some (record { bytes = bytes; capacity = w.grown_capacity capacity bytes })
    ]

-- Compact JSON, for a given escape of each byte of a string.
module _ (escape : ℕ → Bytes) where
  abbrev pub escaped : Bytes → Bytes
  escaped [] = []
  escaped (b ∷ bs) = escape b ++ escaped bs

  abbrev pub compact_value : JsonValue → Bytes
  compact_value (text s) = b'"' ∷ (escaped s ++ (b'"' ∷ []))
  compact_value (number n) = decimal n

  abbrev pub compact_fields : JsonStruct → Bytes
  compact_fields [] = b'}' ∷ []
  compact_fields ((key, v) ∷ []) =
      b'"' ∷ (codes key ++ (b'"' ∷ b':' ∷ (compact_value v ++ (b'}' ∷ []))))
  compact_fields ((key, v) ∷ more ∷ fs) =
      b'"' ∷ (codes key ++ (b'"' ∷ b':' ∷ (compact_value v ++ (b',' ∷ compact_fields (more ∷ fs)))))

  abbrev pub compact : JsonStruct → Bytes
  compact fs = b'{' ∷ compact_fields fs

-- The bytes with an escape of two characters.
abbrev pub two_byte_escapes : Bytes
two_byte_escapes = b'"' ∷ 0x5c ∷ 0x08 ∷ 0x09 ∷ 0x0a ∷ 0x0c ∷ 0x0d ∷ []

-- The documented behaviour of the serializer.
pub record IsSerdeJson (w : JsonWriter) : Type 0 where
  pub escape : ℕ → Bytes
  pub short : All (λ b. length (escape b) ≡ 2) two_byte_escapes
  pub control : (b : ℕ) → b < 0x20 → All (λ c. b ≢ c) two_byte_escapes → length (escape b) ≡ 6
  pub plain : (b : ℕ) → 0x20 ≤ b → All (λ c. b ≢ c) two_byte_escapes → length (escape b) ≡ 1
  pub writes : (fs : JsonStruct) → w.to_bytes fs ≡ some (compact escape fs)

module _ (w : JsonWriter) (serde : IsSerdeJson w) where
  open serde use {escape, short, control, plain, writes}

  length-escape : (b : ℕ) → length (escape b) ≡ json_byte_len b
  unfolding json_byte_len
  length-escape b = ground (arith, short, control b, plain b)

  length-escaped : (bs : Bytes) → length (escaped escape bs) ≡ json_content_len bs
  length-escaped [] = refl
  length-escaped (b ∷ bs) =
      omega
        (arith, length-append (escape b) (escaped escape bs), length-escape b, length-escaped bs)

length-decimal : (v : ℕ) → v < 65536 → length (decimal v) ≡ decimal_digits v
unfolding decimal decimal_digits
length-decimal v h = ground (
  arith,
  length-decimal_from 4 v,
  length-decimal_from 3 (v / 10),
  length-decimal_from 2 (v / 10 / 10),
  length-decimal_from 1 (v / 10 / 10 / 10),
  length-decimal_from 0 (v / 10 / 10 / 10 / 10),
)

module _ (w : JsonWriter) (serde : IsSerdeJson w) where
  open serde use {escape, writes}

  -- The escapes of `response`, the fixed kind of the message.
  length-kind_escapes : total (λ b. length (escape b)) (codes "response") ≡ 8
  unfolding json_byte_len
  length-kind_escapes = simp (length-escape w serde) refl

  length-compact :
      (uid body : OwnedString) (status : ℕ)
      → status < 65536
      → length (compact escape (response_fields (new_response uid status body)))
        ≡ json_response_len (new_response uid status body)
  length-compact uid body status h = simp length-append (
      omega (
        arith,
        length-kind_escapes,
        length-escaped w serde uid.bytes,
        length-escaped w serde body.bytes,
        length-decimal status,
      ))

  -- The serializer never fails on a response, and the length calculated before it runs is the
  -- length of the text that it writes, or nothing exactly if that length does not fit in a `usize`.
  pub response_json_precheck :
      (uid body : OwnedString) (status : ℕ)
      → status < 65536
      → (s : OwnedString) × (response_json w (new_response uid status body) ≡ some s)
        × (response_json_encoded_len (new_response uid status body) ≡ fitting (length s.bytes))
  unfolding response_json
  response_json_precheck uid body status h = (
    record {
      bytes = json;
      capacity = w.grown_capacity (or_zero (response_json_encoded_len r)) json;
    },
    rw (writes (response_fields r), response_json),
    rw (length-compact uid body status h) (response_json_encoded_len-fitting r),
  )
    where
      r : ResourceResponse
      r = new_response uid status body

      json : Bytes
      json = compact escape (response_fields r)
