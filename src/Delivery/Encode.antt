-- ===== src/Delivery/Encode.antt =====
-- src/worker.rs: `bounded_response_json` and the encoders.
use prometheus_ws_proxy_clie.Base.{
  ℕ, ◌-◌, not, Option, none, some, Result, ok, err, OwnedString, len, ltb, leb, ◌==◌, if◌then◌else◌,
}
use prometheus_ws_proxy_clie.Protocol.{ResourceResponse, JsonWriter}
use prometheus_ws_proxy_clie.Protocol.Length.{response_json_encoded_len}
use prometheus_ws_proxy_clie.Protocol.Encoding.{response_json}
use prometheus_ws_proxy_clie.Memory.{
  MemoryBudget, MemoryReservation, try_reserve, try_grow, drop, max_ws_message_size,
}
use prometheus_ws_proxy_clie.Memory.Response.{BudgetedResponse, downgrade_to_error}
use prometheus_ws_proxy_clie.Error.{BoxError, json, memory_budget, message}

pub record EncodedResponse : Type 0 where
  pub json : OwnedString
  pub reservation : MemoryReservation

-- The end of an encoding: a text of the reserved length, whose spare capacity is reserved too.
-- Whatever ends in an error drops the reservation.
unfoldable pub settle_text :
    OwnedString
    → ℕ
    → BoxError
    → MemoryReservation
    → MemoryBudget
    → Result BoxError EncodedResponse × MemoryBudget
settle_text text encoded_length mismatch r b =
    let (grown, r', b') = try_grow r (text.capacity - encoded_length) b in
    if not (len text == encoded_length)
    then (err mismatch, drop r b)
    else if ltb encoded_length text.capacity
    then elim grown [
      | ok _ ↦ (ok (record { json = text; reservation = r' }), b')
      | err e ↦ (err (memory_budget e), drop r' b')
    ]
    else (ok (record { json = text; reservation = r }), b)

-- An encoder, and the result of an encoding: it may have changed the response.
abbrev pub Encoder : Type 0
Encoder = ResourceResponse → Option OwnedString

abbrev pub Encoding : Type 0
Encoding = Option (Result BoxError EncodedResponse × BudgetedResponse × MemoryBudget)

-- The call of the encoder, with a reservation for the length.
unfoldable pub encode_reserved :
    Encoder
    → BudgetedResponse
    → ℕ
    → MemoryReservation
    → MemoryBudget
    → Result BoxError EncodedResponse × MemoryBudget
encode_reserved encoder response encoded_length r b = elim (encoder response.response) [
  | none ↦ (err json, drop r b)
  | some text ↦
      settle_text text encoded_length
        (message "websocket response length precheck disagreed with serializer") r b
]

abbrev pub keep : BudgetedResponse → Result BoxError EncodedResponse × MemoryBudget → Encoding
keep response (result, b) = some (result, response, b)

-- The reservation for a response that has been downgraded, and its encoding.
unfoldable pub encode_downgraded : Encoder → BudgetedResponse → ℕ → MemoryBudget → Encoding
encode_downgraded encoder response limit b = elim (response_json_encoded_len response.response) [
  | none ↦ some (err (message "websocket fallback length calculation overflowed"), response, b)
  | some fallback_length ↦
      let (reserved, b') = try_reserve fallback_length b in
      if ltb limit fallback_length
      then some (err (message "websocket response metadata exceeds the message limit"), response, b)
      else elim reserved [
        | err e ↦ some (err (memory_budget e), response, b')
        | ok r ↦ keep response (encode_reserved encoder response fallback_length r b')
      ]
]

unfoldable pub encode_fallback : Encoder → BudgetedResponse → ℕ → MemoryBudget → Encoding
encode_fallback encoder response limit b = elim (downgrade_to_error response b) [
  | none ↦ none
  | some (response', b') ↦ encode_downgraded encoder response' limit b'
]

unfoldable pub bounded_response_json_with_limit_and_encoder :
    Encoder → BudgetedResponse → ℕ → MemoryBudget → Encoding
bounded_response_json_with_limit_and_encoder encoder response limit b =
    elim (response_json_encoded_len response.response) [
      | none ↦ some (err (message "websocket response length calculation overflowed"), response, b)
      | some original_length ↦
          let (reserved, b') = try_reserve original_length b in
          if leb original_length limit
          then elim reserved [
            | ok r ↦ keep response (encode_reserved encoder response original_length r b')
            | err _ ↦ encode_fallback encoder response limit b'
          ]
          else encode_fallback encoder response limit b
    ]

unfoldable pub bounded_response_json : JsonWriter → BudgetedResponse → MemoryBudget → Encoding
bounded_response_json w response =
    bounded_response_json_with_limit_and_encoder (response_json w) response max_ws_message_size
