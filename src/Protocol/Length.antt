-- ===== src/Protocol/Length.antt =====
-- src/protocol.rs: the length calculations that run before a response is encoded, with their
-- overflow checks. `Encoding` proves that they agree with the encoders.
use prometheus_ws_proxy_clie.Base.Maybe.{◌>>=◌}
use prometheus_ws_proxy_clie.Base.{
  ℕ, ◌+◌, ◌*◌, ◌≤◌, ◌<◌, ◌≡◌, Bool, ◌&&◌, ◌||◌, Option, none, some, [], ◌∷◌, Bytes, arith, String,
  leb, ltb, ◌==◌, if◌then◌else◌, length, codes, try_fold, total, checked_add, usize_mod, Bool-cases,
  inl, inr,
}
use prometheus_ws_proxy_clie.Protocol.{ResourceResponse}

-- The bytes that one byte of a string takes in JSON.
unfoldable pub json_byte_len : ℕ → ℕ
json_byte_len byte =
    if byte == b'"'
      || byte == 0x5c
      || byte == 0x08
      || byte == 0x09
      || byte == 0x0a
      || byte == 0x0c
      || byte == 0x0d
    then 2
    else if leb byte 0x1f
    then 6
    else 1

is_ascii_alphanumeric : ℕ → Bool
is_ascii_alphanumeric c =
    (leb b'0' c && leb c b'9') || (leb b'A' c && leb c b'Z') || (leb b'a' c && leb c b'z')

-- The bytes that one byte takes in a form.
unfoldable pub form_byte_len : ℕ → ℕ
unfolding is_ascii_alphanumeric
form_byte_len byte =
    if is_ascii_alphanumeric byte
      || byte == b'*'
      || byte == b'-'
      || byte == b'.'
      || byte == b'_'
      || byte == b' '
    then 1
    else 3

unfoldable pub json_string_content_encoded_len : Bytes → Option ℕ
json_string_content_encoded_len =
    try_fold (λ length byte. checked_add length (json_byte_len byte)) 0

unfoldable pub form_component_encoded_len : Bytes → Option ℕ
form_component_encoded_len = try_fold (λ length byte. checked_add length (form_byte_len byte)) 0

unfoldable pub decimal_digits : ℕ → ℕ
decimal_digits value =
    if leb value 9
    then 1
    else if leb value 99
    then 2
    else if leb value 999
    then 3
    else if leb value 9999
    then 4
    else 5

abbrev pub prefix : String
prefix = "{\"type\":\"response\",\"uid\":\""

abbrev pub between_strings : String
between_strings = "\",\"body\":\""

abbrev pub before_status : String
before_status = "\",\"status\":"

unfoldable pub response_json_encoded_len : ResourceResponse → Option ℕ
response_json_encoded_len r = do
  a ← checked_add (length (codes prefix)) (← json_string_content_encoded_len r.uid.bytes)
  b ← checked_add a (length (codes between_strings))
  c ← checked_add b (← json_string_content_encoded_len r.body.bytes)
  d ← checked_add c (length (codes before_status))
  e ← checked_add d (decimal_digits r.status)
  checked_add e 1

abbrev pub form_fields : ℕ
form_fields = length (codes "status=") + length (codes "&body=")

unfoldable pub response_form_encoded_len : ResourceResponse → Option ℕ
response_form_encoded_len r = do
  a ← checked_add form_fields (decimal_digits r.status)
  checked_add a (← form_component_encoded_len r.body.bytes)

-- A number if it fits in a `usize`.
abbrev pub fitting : ℕ → Option ℕ
fitting n = if ltb n usize_mod then some n else none

-- The lengths without overflow.
abbrev pub json_content_len : Bytes → ℕ
json_content_len = total json_byte_len

abbrev pub form_content_len : Bytes → ℕ
form_content_len = total form_byte_len

abbrev pub json_response_len : ResourceResponse → ℕ
json_response_len r =
    json_content_len r.uid.bytes + json_content_len r.body.bytes + decimal_digits r.status + 48

abbrev pub form_response_len : ResourceResponse → ℕ
form_response_len r = form_content_len r.body.bytes + decimal_digits r.status + 13

-- A checked fold over byte lengths is the plain sum, or nothing if that overflows.
try_fold-total :
    (f : ℕ → ℕ) (start : ℕ) (bs : Bytes)
    → start < usize_mod
    → try_fold (λ length byte. checked_add length (f byte)) start bs ≡ fitting (start + total f bs)
try_fold-total f start [] h = ground arith
try_fold-total f start (b ∷ bs) h = elim (Bool-cases (ltb (start + f b) usize_mod)) [
  | inl fits ↦ ground (arith, try_fold-total f (start + f b) bs)
  | inr over ↦ ground arith
]

json_string_content_encoded_len-fitting :
    (bs : Bytes) → json_string_content_encoded_len bs ≡ fitting (json_content_len bs)
unfolding json_string_content_encoded_len
json_string_content_encoded_len-fitting bs =
    ground (arith, try_fold-total json_byte_len 0 bs (omega arith))

form_component_encoded_len-fitting :
    (bs : Bytes) → form_component_encoded_len bs ≡ fitting (form_content_len bs)
unfolding form_component_encoded_len
form_component_encoded_len-fitting bs =
    ground (arith, try_fold-total form_byte_len 0 bs (omega arith))

-- The JSON length is the plain sum of the parts of the message, and nothing exactly if that sum
-- does not fit in a `usize`.
pub response_json_encoded_len-fitting :
    (r : ResourceResponse) → response_json_encoded_len r ≡ fitting (json_response_len r)
unfolding response_json_encoded_len
response_json_encoded_len-fitting r = ground (
  arith,
  json_string_content_encoded_len-fitting r.uid.bytes,
  json_string_content_encoded_len-fitting r.body.bytes,
)

-- The form length is the plain sum of the parts of the form, and nothing exactly if that sum does
-- not fit in a `usize`.
response_form_encoded_len-fitting :
    (r : ResourceResponse) → response_form_encoded_len r ≡ fitting (form_response_len r)
unfolding response_form_encoded_len
response_form_encoded_len-fitting r =
    ground (arith, form_component_encoded_len-fitting r.body.bytes)

-- The length of a response in JSON, and that of its form, are the plain sums of their parts, and
-- nothing exactly if the sum does not fit in a `usize`.
pub encoded_len-fitting :
    (r : ResourceResponse)
    → (response_json_encoded_len r ≡ fitting (json_response_len r))
      × (response_form_encoded_len r ≡ fitting (form_response_len r))
encoded_len-fitting r = (response_json_encoded_len-fitting r, response_form_encoded_len-fitting r)

json_byte_len_bounds : (b : ℕ) → (1 ≤ json_byte_len b) × (json_byte_len b ≤ 6)
unfolding json_byte_len
json_byte_len_bounds b = ground arith

form_byte_len_bounds : (b : ℕ) → (1 ≤ form_byte_len b) × (form_byte_len b ≤ 3)
unfolding form_byte_len
form_byte_len_bounds b = ground arith

pub json_content_len_bounds :
    (bs : Bytes) → (length bs ≤ json_content_len bs) × (json_content_len bs ≤ 6 * length bs)
json_content_len_bounds [] = omega arith
json_content_len_bounds (b ∷ bs) = omega (arith, json_content_len_bounds bs, json_byte_len_bounds b)

pub form_content_len_bounds :
    (bs : Bytes) → (length bs ≤ form_content_len bs) × (form_content_len bs ≤ 3 * length bs)
form_content_len_bounds [] = omega arith
form_content_len_bounds (b ∷ bs) = omega (arith, form_content_len_bounds bs, form_byte_len_bounds b)

pub decimal_digits_bounds : (v : ℕ) → (1 ≤ decimal_digits v) × (decimal_digits v ≤ 5)
unfolding decimal_digits
decimal_digits_bounds v = ground arith
