-- ===== src/Config.antt =====
-- src/config.rs: the configuration, and the resolution of the instance `ec2` by the metadata
-- service. The JSON parser, the HTTP client and header values are parameters; the requests that
-- are sent are part of the result.
pub mod Resolved
pub mod Shown
pub mod Tests
use prometheus_ws_proxy_clie.Base.{
  ℕ, ◌≤◌, ◌<◌, Bool, true, false, not, ◌&&◌, Option, none, some, Result, ok, err, ok_or, ◌>>=◌,
  ◌>>◌, List, [], ◌∷◌, ◌++◌, Bytes, codes, bytes_eq, leb, ltb, if◌then◌else◌, trim,
}
use prometheus_ws_proxy_clie.Protocol.{validate_instance, validate_resource}
use prometheus_ws_proxy_clie.Error.{BoxError, json, http, header, message, or_field_limit}
use prometheus_ws_proxy_clie.Target.{trim_end_slashes}

-- `resources` is a `HashMap`: its pairs, each name once, in some order.
pub record Config : Type 0 where
  pub instance' : Bytes
  pub target : Bytes
  pub resources : List (Bytes × Bytes)
  pub cf_access_enabled : Bool
  pub cf_access_key : Bytes
  pub cf_access_secret : Bytes
  pub ec2_meta_domain : Bytes

-- A response of the metadata service; its text is missing where reading it fails.
pub record Response : Type 0 where
  pub status : ℕ
  pub text : Option Bytes

-- What is sent to the metadata service: the request for a token, and the one for the instance,
-- with a token or with none.
pub data Request : Type 0 where
  put_token : Bytes → Request
  get_instance : Bytes → Option Bytes → Request

-- The HTTP client at the metadata service (a request that gets no response is an error), the
-- header values that `HeaderValue::from_str` accepts, and `serde_json::from_slice`.
pub record Environment : Type 0 where
  pub send : Request → Result BoxError Response
  pub header_value : Bytes → Option Bytes
  pub from_slice : Bytes → Option Config

-- `StatusCode::is_success`
abbrev pub is_success : Response → Bool
is_success r = leb 200 r.status && ltb r.status 300

abbrev nonempty : Bytes → Option Bytes
nonempty [] = none
nonempty (c ∷ cs) = some (c ∷ cs)

abbrev is_some : Option Bytes → Bool
is_some none = false
is_some (some _) = true

-- The results so far, with the requests that were sent for them.
abbrev pub Sent : Type 0 → Type 0
Sent A = List Request × Result BoxError A

abbrev pub sending : Request → Sent Response → Sent Response
sending r (rs, answer) = (r ∷ rs, answer)

-- The token that a response to the first request carries.
abbrev token_of : Result BoxError Response → Option Bytes
token_of (err _) = none
token_of (ok response) =
    let text : Option Bytes = elim response.text [ none ↦ none | some value ↦ nonempty value ] in
    if is_success response then text else none

-- The instance that a response carries.
unfoldable pub instance_of : Response → Result BoxError Bytes
instance_of response =
    if not (is_success response)
    then err (message "EC2 metadata returned status while resolving instance")
    else do
      text ← ok_or response.text (http false)
      elim (trim text) [
        | [] ↦ err (message "EC2 metadata returned an empty instance id")
        | c ∷ cs ↦ ok (c ∷ cs)
      ]

abbrev instance_from : Sent Response → Sent Bytes
instance_from (rs, answer) = (rs, answer >>= instance_of)

abbrev with_instance : Config → Sent Bytes → Sent Config
with_instance c (rs, answer) = (rs, answer >>= λ i. ok (record c { instance' = i }))

abbrev pub validate_resources : List (Bytes × Bytes) → Result BoxError (Unit {0})
validate_resources [] = ok tt
validate_resources ((name, _) ∷ rs) =
    let rest = validate_resources rs in or_field_limit (validate_resource name) >> rest

unfoldable pub validate_protocol_identifiers : Config → Result BoxError (Unit {0})
unfolding validate_instance validate_resource
validate_protocol_identifiers c = do
  or_field_limit (validate_instance c.instance')
  validate_resources c.resources

abbrev validated : Sent Config → Sent Config
validated (rs, answer) = (rs, do c ← answer; validate_protocol_identifiers c; ok c)

module _ (env : Environment) where
  -- The first request for the instance, and a second one with no token if the service refuses it.
  unfoldable pub fetch_instance : Bytes → Option Bytes → Sent Response
  fetch_instance instance_url token =
      let first = get_instance instance_url token in
      let second = get_instance instance_url none in
      elim (env.send first) [
        | err e ↦ (first ∷ [], err e)
        | ok response ↦
            if not (is_success response) && is_some token
            then (first ∷ second ∷ [], env.send second)
            else (first ∷ [], ok response)
      ]

  -- The header value of a token, if there is one: `none` where it is not a valid value.
  abbrev token_header : Option Bytes → Option (Option Bytes)
  token_header none = some none
  token_header (some token) = elim (env.header_value token) [ none ↦ none | some v ↦ some (some v) ]

  unfoldable pub resolve_ec2 : Bytes → Sent Bytes
  unfolding fetch_instance instance_of trim_end_slashes
  resolve_ec2 ec2_meta_domain =
      let base = trim_end_slashes ec2_meta_domain in
      let request = put_token (base ++ codes "/latest/api/token") in
      elim (token_header (token_of (env.send request))) [
        | none ↦ (request ∷ [], err header)
        | some token ↦
            instance_from (
              sending request
                (fetch_instance (base ++ codes "/latest/meta-data/instance-id") token))
      ]

  unfoldable pub resolve_instance : Config → Sent Config
  unfolding resolve_ec2
  resolve_instance c =
      if not (bytes_eq c.instance' (codes "ec2"))
      then ([], ok c)
      else with_instance c (resolve_ec2 c.ec2_meta_domain)

  -- `Config::from_json`; `Config::load` does the same with the contents of a file.
  unfoldable pub from_json : Bytes → Sent Config
  unfolding resolve_instance validate_protocol_identifiers
  from_json contents = elim (env.from_slice contents) [
    | none ↦ ([], err json)
    | some c ↦ validated (resolve_instance c)
  ]

  -- `Config::load`, with what reading the file gives.
  unfoldable pub load : Result BoxError Bytes → Sent Config
  unfolding from_json
  load (err e) = ([], err e)
  load (ok contents) = from_json contents
