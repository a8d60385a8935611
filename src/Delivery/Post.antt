-- ===== src/Delivery/Post.antt =====
-- src/worker.rs: the form that wire v3 posts, `post_response` and `deliver_by_post`. The URL
-- library, the form serializer, header values and the HTTP client are parameters.
use prometheus_ws_proxy_clie.Base.{
  ℕ, ◌+◌, ◌*◌, ◌&&◌, Option, none, some, Result, ok, err, ok_or, ◌>>=◌, List, [], ◌∷◌, Bytes,
  OwnedString, codes, len, ltb, if◌then◌else◌,
}
use prometheus_ws_proxy_clie.Error.{BoxError, header, message, is_timeout}
use prometheus_ws_proxy_clie.Protocol.{ResourceResponse}
use prometheus_ws_proxy_clie.Protocol.Length.{response_form_encoded_len}
use prometheus_ws_proxy_clie.Memory.{MemoryBudget, MemoryReservation, try_reserve, drop}
use prometheus_ws_proxy_clie.Memory.Response.{BudgetedResponse}
use prometheus_ws_proxy_clie.Config.{Config}
use prometheus_ws_proxy_clie.Target.{Target, UrlLib, response_url}
use prometheus_ws_proxy_clie.Timing.{Duration, Timing, post_timeout}
use prometheus_ws_proxy_clie.Resource.{Others, resume}
use prometheus_ws_proxy_clie.Error.{memory_budget}
use prometheus_ws_proxy_clie.Delivery.Encode.{EncodedResponse, settle_text}

-- `WorkerContext`; the memory budget is a state of its own.
pub record WorkerContext (Url : Type 0) : Type 0 where
  pub config : Config
  pub target : Target Url
  pub protocol : ℕ
  pub timing : Timing

-- The two headers of Cloudflare Access, in order.
abbrev pub CfHeaders : Type 0
CfHeaders = List (Bytes × Bytes)

-- `reqwest::RequestBuilder`, with what is set on it.
pub record FormRequest (Url : Type 0) : Type 0 where
  pub url : Url
  pub content_type : Bytes
  pub timeout : Duration
  pub body : OwnedString
  pub headers : CfHeaders

-- `url::form_urlencoded::Serializer` with a capacity and pairs, `HeaderValue::from_str`,
-- `Duration::from_secs_f64` of a length over the throughput, and the HTTP client: what the
-- others did meanwhile, and the response's status or the transport's error. `error_for_status` is an
-- error for the statuses 400 to 599.
pub record PostLib (Url : Type 0) : Type 0 where
  pub urls : UrlLib Url
  pub serialize : ℕ → List (Bytes × Bytes) → OwnedString
  pub header_value : Bytes → Option Bytes
  pub transfer : ℕ → Duration
  pub status_text : ℕ → Bytes
  pub send : FormRequest Url → Others × Result BoxError ℕ
  pub error_for_status : ℕ → Result BoxError (Unit {0})

abbrev pub fallback_after_timeout_limit : ℕ
fallback_after_timeout_limit = 256 * 1024

module _ {Url : Type 0} (lib : PostLib Url) where
  unfoldable pub encode_form : ResourceResponse → ℕ → Result BoxError OwnedString
  encode_form response encoded_length = ok (
      lib.serialize encoded_length (
        (codes "status", lib.status_text response.status)
        ∷ (codes "body", response.body.bytes)
        ∷ []))

  unfoldable pub add_websocket_cf_headers : Config → Result BoxError CfHeaders
  add_websocket_cf_headers config =
      if config.cf_access_enabled
      then (do
        key ← ok_or (lib.header_value config.cf_access_key) header
        secret ← ok_or (lib.header_value config.cf_access_secret) header
        ok ((codes "CF-Access-Client-Id", key) ∷ (codes "CF-Access-Client-Secret", secret) ∷ []))
      else ok []

  -- The request that carries a form; its headers are those of `add_websocket_cf_headers`.
  unfoldable pub form_request :
      WorkerContext Url → BudgetedResponse → ℕ → OwnedString → Result BoxError (FormRequest Url)
  form_request context response encoded_length form = do
    url ← response_url lib.urls context.target response.response.uid.bytes
    headers ← add_websocket_cf_headers context.config
    ok (record {
      url = url;
      content_type = codes "application/x-www-form-urlencoded";
      timeout = post_timeout lib.transfer context.timing.post_timeout encoded_length;
      body = form;
      headers = headers;
    })

  -- The request for a settled form, which keeps the reservation of the form.
  unfoldable pub with_request :
      WorkerContext Url
      → BudgetedResponse
      → ℕ
      → Result BoxError EncodedResponse × MemoryBudget
      → Result BoxError (FormRequest Url × MemoryReservation) × MemoryBudget
  with_request context response encoded_length (err e, b) = (err e, b)
  with_request context response encoded_length (ok form, b) =
      elim (form_request context response encoded_length form.json) [
        | err e ↦ (err e, drop form.reservation b)
        | ok request ↦ (ok (request, form.reservation), b)
      ]

  -- The serialized form under a reservation for its length.
  unfoldable pub reserved_form :
      (ResourceResponse → ℕ → Result BoxError OwnedString)
      → ResourceResponse
      → ℕ
      → MemoryReservation
      → MemoryBudget
      → Result BoxError EncodedResponse × MemoryBudget
  reserved_form encoder response encoded_length r b = elim (encoder response encoded_length) [
    | err e ↦ (err e, drop r b)
    | ok form ↦
        settle_text form encoded_length
          (message "form response length precheck disagreed with serializer") r b
  ]

  unfoldable pub prepare_form_request_with_encoder :
      WorkerContext Url
      → BudgetedResponse
      → (ResourceResponse → ℕ → Result BoxError OwnedString)
      → MemoryBudget
      → Result BoxError (FormRequest Url × MemoryReservation) × MemoryBudget
  prepare_form_request_with_encoder context response encoder b =
      elim (response_form_encoded_len response.response) [
        | none ↦ (err (message "form response length calculation overflowed"), b)
        | some encoded_length ↦
            let (reserved, b') = try_reserve encoded_length b in
            elim reserved [
              | err e ↦ (err (memory_budget e), b')
              | ok r ↦
                  with_request context response encoded_length
                    (reserved_form encoder response.response encoded_length r b')
            ]
      ]

  unfoldable pub prepare_form_request :
      WorkerContext Url
      → BudgetedResponse
      → MemoryBudget
      → Result BoxError (FormRequest Url × MemoryReservation) × MemoryBudget
  prepare_form_request context response b =
      prepare_form_request_with_encoder context response encode_form b

  -- What posting comes to once the request is prepared. The reservation is dropped after the answer.
  -- Meanwhile this task holds the bytes of the response and those of the form.
  unfoldable pub send_prepared :
      BudgetedResponse
      → Result BoxError (FormRequest Url × MemoryReservation) × MemoryBudget
      → Result BoxError (Unit {0}) × MemoryBudget
  send_prepared response (err e, b) = (err e, b)
  send_prepared response (ok (request, r), b) =
      let (others, answer) = lib.send request in
      (
        answer >>= lib.error_for_status,
        drop r (resume others (record { bytes = response.retained.bytes + r.bytes }) b),
      )

  unfoldable pub post_response :
      WorkerContext Url
      → BudgetedResponse
      → MemoryBudget
      → Result BoxError (Unit {0}) × MemoryBudget
  post_response context response b =
      send_prepared response (prepare_form_request context response b)

  -- `none` means that the response is done with; it is dropped then. `some` means that it is to be
  -- sent over the WebSocket.
  unfoldable pub deliver_by_post :
      WorkerContext Url → BudgetedResponse → MemoryBudget → Option BudgetedResponse × MemoryBudget
  deliver_by_post context response b =
      let (result, b') = post_response context response b in
      elim result [
        | ok _ ↦ (none, drop response.retained b')
        | err error ↦
            if is_timeout error && ltb fallback_after_timeout_limit (len response.response.body)
            then (none, drop response.retained b')
            else (some response, b')
      ]
