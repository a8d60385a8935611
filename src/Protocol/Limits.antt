-- ===== src/Protocol/Limits.antt =====
-- src/protocol.rs: what the validation of a message accepts.
use prometheus_ws_proxy_clie.Base.{◌≤◌, ◌<◌, ◌≡◌, ◌↔◌, ◌⊎◌, OwnedString, ok, err, len, arith}
use prometheus_ws_proxy_clie.Protocol.{
  IncomingMessage, ping, pong, ready, request, unknown, FieldLimitError, validate, max_uid_size,
  max_resource_size,
}

-- The identifiers of a message are within the limits of the protocol, in bytes.
abbrev pub IsWithinLimits : IncomingMessage → Type 0
IsWithinLimits (ready uid) = len uid ≤ max_uid_size
IsWithinLimits (request uid resource) =
    (len uid ≤ max_uid_size) × (len resource ≤ max_resource_size)
IsWithinLimits ping = Unit
IsWithinLimits pong = Unit
IsWithinLimits unknown = Unit

-- A message is accepted exactly if each identifier in it is within its limit, both boundaries
-- included.
validate_iff : (m : IncomingMessage) → (validate m ≡ ok tt) ↔ IsWithinLimits m
unfolding validate
validate_iff (ready uid) = ground arith
validate_iff (request uid resource) = ground arith
validate_iff ping = ground arith
validate_iff pong = ground arith
validate_iff unknown = ground arith

abbrev uid_error : OwnedString → FieldLimitError
uid_error uid = record { field = "uid"; length = len uid; limit = max_uid_size }

abbrev resource_error : OwnedString → FieldLimitError
resource_error resource = record {
  field = "resource";
  length = len resource;
  limit = max_resource_size;
}

-- The first identifier of a message that exceeds its limit, with its length and that limit.
abbrev pub Reports : FieldLimitError → IncomingMessage → Type 0
Reports e (ready uid) = (max_uid_size < len uid) × (e ≡ uid_error uid)
Reports e (request uid resource) =
    ((max_uid_size < len uid) × (e ≡ uid_error uid))
    ⊎ ((len uid ≤ max_uid_size)
        × (max_resource_size < len resource)
        × (e ≡ resource_error resource))
Reports e ping = ⊥
Reports e pong = ⊥
Reports e unknown = ⊥

-- A message is refused with an error exactly if that error reports its first oversized identifier,
-- with the length in bytes and the limit; a request's uid is checked before its resource.
validate-Reports : (m : IncomingMessage) (e : FieldLimitError) → (validate m ≡ err e) ↔ Reports e m
unfolding validate
validate-Reports (ready uid) e = ground arith
validate-Reports (request uid resource) e = ground arith
validate-Reports ping e = ground arith
validate-Reports pong e = ground arith
validate-Reports unknown e = ground arith

-- Whether and how a message is refused: it is accepted exactly if each of its identifiers is within its
-- limit, and refused with an error exactly if that reports its first oversized identifier, with the
-- length in bytes and the limit; a request's uid is checked before its resource.
pub validate-Decides :
    (m : IncomingMessage) (e : FieldLimitError)
    → ((validate m ≡ ok tt) ↔ IsWithinLimits m) × ((validate m ≡ err e) ↔ Reports e m)
validate-Decides m e = (validate_iff m, validate-Reports m e)
