-- ===== src/Config/Resolved.antt =====
-- src/config.rs: what a loaded configuration satisfies, and which requests are sent for it.
use prometheus_ws_proxy_clie.Base.{
  ℕ, ◌≤◌, ◌≡◌, ◌≢◌, refl, subst, ap, ◌∙◌, ◌⊎◌, inl, inr, true, false, Option, none, some, ok, err,
  List, [], ◌∷◌, ◌++◌, Bytes, codes, bytes_eq, length, All, arith, trim, Option-cases, Result-cases,
  ◌>>=◌,
}
use prometheus_ws_proxy_clie.Protocol.{validate_resource, max_instance_size, max_resource_size}
use prometheus_ws_proxy_clie.Target.{trim_end_slashes}
use prometheus_ws_proxy_clie.Config.{
  Config, Response, Request, put_token, get_instance, Environment, is_success, Sent, token_of,
  token_header, sending, instance_from, validated, fetch_instance, instance_of, resolve_ec2,
  resolve_instance, validate_resources, validate_protocol_identifiers, from_json,
}

-- The identifiers are within the limits of the protocol.
pub record IsValid (c : Config) : Type 0 where
  pub instance_limit : length c.instance' ≤ max_instance_size
  pub resource_limits : All (λ r. length r.0 ≤ max_resource_size) c.resources

-- A configuration that differs from another in the instance alone, and there only if that was
-- `ec2`: then the instance is not empty.
pub record IsResolved (c d : Config) : Type 0 where
  pub same : d ≡ record c { instance' = d.instance' }
  pub static : bytes_eq c.instance' (codes "ec2") ≡ false → d.instance' ≡ c.instance'
  pub found : bytes_eq c.instance' (codes "ec2") ≡ true → d.instance' ≢ []

validate_resources_limits :
    (rs : List (Bytes × Bytes))
    → validate_resources rs ≡ ok tt
    → All (λ r. length r.0 ≤ max_resource_size) rs
unfolding validate_resource
validate_resources_limits [] e = tt
validate_resources_limits ((name, u) ∷ rs) e = ground (arith, validate_resources_limits rs)

validate-IsValid : (c : Config) → validate_protocol_identifiers c ≡ ok tt → IsValid c
unfolding validate_protocol_identifiers
validate-IsValid c e = ground (arith, validate_resources_limits c.resources)

instance_of-nonempty : (r : Response) (i : Bytes) → instance_of r ≡ ok i → i ≢ []
unfolding instance_of
instance_of-nonempty r i e = ground arith

instance_of-text :
    (r : Response) (text : Bytes) (c : ℕ) (cs : Bytes)
    → is_success r ≡ true
    → r.text ≡ some text
    → trim text ≡ c ∷ cs
    → instance_of r ≡ ok (c ∷ cs)
unfolding instance_of
instance_of-text r text c cs good body found = rw (good, body) (ground arith)

instance_from-ok :
    (s : Sent Response) (r : Response) → s.1 ≡ ok r → (instance_from s).1 ≡ instance_of r
instance_from-ok s r e = ap (λ answer. answer >>= instance_of) e

instance_from-nonempty : (s : Sent Response) (i : Bytes) → (instance_from s).1 ≡ ok i → i ≢ []
instance_from-nonempty (rs, ok r) i e = instance_of-nonempty r i e
instance_from-nonempty (rs, err x) i e = cc

module _ (env : Environment) where
  resolve_ec2-nonempty : (d i : Bytes) → (resolve_ec2 env d).1 ≡ ok i → i ≢ []
  unfolding resolve_ec2
  resolve_ec2-nonempty d i e =
      let base = trim_end_slashes d in
      let request = put_token (base ++ codes "/latest/api/token") in
      elim (Option-cases (token_header env (token_of (env.send request)))) [
        | inl bad ↦ cc (rw (bad, resolve_ec2) at e)
        | inr (token, good) ↦
            instance_from-nonempty
              (sending request
                (fetch_instance env (base ++ codes "/latest/meta-data/instance-id") token))
              i (rw (good, resolve_ec2) at e)
      ]

  resolve_instance-IsResolved : (c d : Config) → (resolve_instance env c).1 ≡ ok d → IsResolved c d
  unfolding resolve_instance
  resolve_instance-IsResolved c d e = elim (Result-cases (resolve_ec2 env c.ec2_meta_domain).1) [
    | inl (i, found) ↦ ground (arith, resolve_ec2-nonempty c.ec2_meta_domain i found)
    | inr (x, failed) ↦ ground arith
  ]

  validated_sound :
      (c d : Config) (s : Sent Config) → (validated s).1 ≡ ok d → (s.1 ≡ ok d) × IsValid d
  validated_sound c d (rs, err x) e = cc
  validated_sound c d (rs, ok a) e = elim (Result-cases (validate_protocol_identifiers a)) [
    | inl (_, accepted) ↦
        let same : a ≡ d = ground arith in (cc, subst IsValid same (validate-IsValid a accepted))
    | inr (x, refused) ↦ cc (rw refused at e)
  ]

  -- A configuration that is loaded from JSON has every identifier within its limit, and is the
  -- parsed one, but for the instance `ec2`, in whose place it has an instance that is not empty.
  pub from_json-IsResolved :
      (contents : Bytes) (d : Config)
      → (from_json env contents).1 ≡ ok d
      → (c : Config) × (env.from_slice contents ≡ some c) × IsResolved c d × IsValid d
  unfolding from_json
  from_json-IsResolved contents d e = elim (Option-cases (env.from_slice contents)) [
    | inl refused ↦ cc (rw (refused, from_json) at e)
    | inr (c, parsed) ↦
        let (resolved, valid) =
          validated_sound c d (resolve_instance env c) (rw (parsed, from_json) at e) in
        (c, parsed, resolve_instance-IsResolved c d resolved, valid)
  ]

  -- The service gives no token, or refuses the one that it gave.
  abbrev pub IsV1Only : Bytes → Bytes → Type 0
  IsV1Only token_url instance_url =
      (token_of (env.send (put_token token_url)) ≡ none)
      ⊎ ((token : Bytes) × (value : Bytes) × (refusal : Response) × (token_of
              (env.send (put_token token_url))
            ≡ some token)
          × (env.header_value token ≡ some value)
          × (env.send (get_instance instance_url (some value)) ≡ ok refusal)
          × (is_success refusal ≡ false))

  fetch_instance-v1 :
      (u : Bytes) (token : Option Bytes) (r : Response)
      → (token ≡ none)
        ⊎ ((value : Bytes) × (refusal : Response) × (token ≡ some value)
            × (env.send (get_instance u (some value)) ≡ ok refusal)
            × (is_success refusal ≡ false))
      → env.send (get_instance u none) ≡ ok r
      → is_success r ≡ true
      → (fetch_instance env u token).1 ≡ ok r
  unfolding fetch_instance
  fetch_instance-v1 u none r h e s = ground arith
  fetch_instance-v1 u (some v) r (inl absent) e s = cc
  fetch_instance-v1 u (some v) r (inr (value, refusal, same, sent, refused)) e s =
      let v_same : v ≡ value = cc in
      let first : env.send (get_instance u (some v)) ≡ ok refusal = rw v_same sent in
      rw (first, fetch_instance, refused) e

  -- An instance is found by a request with no token whenever the service gives no token or refuses
  -- the one that it gave, and answers a request with none by a text that is not blank.
  pub resolve_ec2-v1 :
      (domain text : Bytes) (c : ℕ) (cs : Bytes) (r : Response)
      → let base = trim_end_slashes domain in
        let instance_url = base ++ codes "/latest/meta-data/instance-id" in
        IsV1Only (base ++ codes "/latest/api/token") instance_url
        → env.send (get_instance instance_url none) ≡ ok r
        → is_success r ≡ true
        → r.text ≡ some text
        → trim text ≡ c ∷ cs
        → (resolve_ec2 env domain).1 ≡ ok (c ∷ cs)
  unfolding resolve_ec2
  resolve_ec2-v1 domain text c cs r only sent good body found = elim only [
    | inl absent ↦
        rw (absent, resolve_ec2)
          (instance_from-ok (sending request (fetch_instance env u none)) r
              (fetch_instance-v1 u none r (inl refl) sent good)
            ∙ from_text)
    | inr (token, value, refusal, given, valid, first, refused) ↦
        rw (given, valid, resolve_ec2)
          (instance_from-ok (sending request (fetch_instance env u (some value))) r (
              fetch_instance-v1 u (some value) r (inr (value, refusal, refl, first, refused)) sent
                good)
            ∙ from_text)
  ]
    where
      u : Bytes
      u = trim_end_slashes domain ++ codes "/latest/meta-data/instance-id"

      request : Request
      request = put_token (trim_end_slashes domain ++ codes "/latest/api/token")

      from_text : instance_of r ≡ ok (c ∷ cs)
      from_text = instance_of-text r text c cs good body found
