-- ===== src/Protocol.antt =====
-- src/protocol.rs: the messages of the wire protocol, the limits on their identifiers, and the
-- JSON texts that the client sends. `serde_json` is a parameter: `JsonWriter` is its serializer.
pub mod Length
pub mod Encoding
pub mod Limits
pub mod Tests
use prometheus_ws_proxy_clie.Base.{
  ℕ, ◌≤◌, ◌<◌, Bool, String, Option, none, some, List, [], ◌∷◌, Bytes, OwnedString, Result, ok, err,
  ◌>>◌, length, codes, leb, ◌==◌, if◌then◌else◌,
}

abbrev pub max_uid_size : ℕ
max_uid_size = 128

abbrev pub max_resource_size : ℕ
max_resource_size = 512

abbrev pub max_instance_size : ℕ
max_instance_size = 256

abbrev pub max_worker_size : ℕ
max_worker_size = 256

pub record FieldLimitError : Type 0 where
  pub field : String
  pub length : ℕ
  pub limit : ℕ

pub data IncomingMessage : Type 0 where
  ping pong : IncomingMessage
  ready : OwnedString → IncomingMessage
  request : OwnedString → OwnedString → IncomingMessage
  unknown : IncomingMessage

unfoldable pub validate_field : String → Bytes → ℕ → Result FieldLimitError (Unit {0})
validate_field field value limit =
    if leb (length value) limit
    then ok tt
    else err (record { field = field; length = length value; limit = limit })

unfoldable pub validate_uid : Bytes → Result FieldLimitError (Unit {0})
unfolding validate_field
validate_uid uid = validate_field "uid" uid max_uid_size

unfoldable pub validate_resource : Bytes → Result FieldLimitError (Unit {0})
unfolding validate_field
validate_resource resource = validate_field "resource" resource max_resource_size

unfoldable pub validate_instance : Bytes → Result FieldLimitError (Unit {0})
unfolding validate_field
validate_instance instance' = validate_field "instance" instance' max_instance_size

unfoldable pub validate_worker : Bytes → Result FieldLimitError (Unit {0})
unfolding validate_field
validate_worker worker = validate_field "worker" worker max_worker_size

-- `IncomingMessage::validate`
unfoldable pub validate : IncomingMessage → Result FieldLimitError (Unit {0})
unfolding validate_uid validate_resource
validate (ready uid) = validate_uid uid.bytes
validate (request uid resource) = do validate_uid uid.bytes; validate_resource resource.bytes
validate ping = ok tt
validate pong = ok tt
validate unknown = ok tt

-- A field of a serialized struct, with its name on the wire.
pub data JsonValue : Type 0 where
  text : Bytes → JsonValue
  number : ℕ → JsonValue

abbrev pub JsonStruct : Type 0
JsonStruct = List (String × JsonValue)

pub record RegisterV1 : Type 0 where
  pub kind : String
  pub instance' : Bytes

pub record RegisterV2 : Type 0 where
  pub kind : String
  pub instance' : Bytes
  pub worker : Bytes
  pub version : ℕ

pub record Ready : Type 0 where
  pub kind : String
  pub uid : Bytes
  pub worker : Bytes

pub record ResourceResponse : Type 0 where
  pub kind : String
  pub uid : OwnedString
  pub body : OwnedString
  pub status : ℕ

-- `ResourceResponse::new`
abbrev pub new_response : OwnedString → ℕ → OwnedString → ResourceResponse
new_response uid status body = record { kind = "response"; uid = uid; body = body; status = status }

-- What `#[derive(Serialize)]` makes of each struct: its fields in the order of declaration, with
-- `kind` renamed to `type`.
abbrev pub register_v1_fields : RegisterV1 → JsonStruct
register_v1_fields r = ("type", text (codes r.kind)) ∷ ("instance", text r.instance') ∷ []

abbrev pub register_v2_fields : RegisterV2 → JsonStruct
register_v2_fields r =
    ("type", text (codes r.kind))
    ∷ ("instance", text r.instance')
    ∷ ("worker", text r.worker)
    ∷ ("version", number r.version)
    ∷ []

abbrev pub ready_fields : Ready → JsonStruct
ready_fields r =
    ("type", text (codes r.kind)) ∷ ("uid", text r.uid) ∷ ("worker", text r.worker) ∷ []

abbrev pub response_fields : ResourceResponse → JsonStruct
response_fields r =
    ("type", text (codes r.kind))
    ∷ ("uid", text r.uid.bytes)
    ∷ ("body", text r.body.bytes)
    ∷ ("status", number r.status)
    ∷ []

-- `serde_json` and the growth of a `Vec`: the bytes written for a struct, if the serializer
-- succeeds, and the capacity of a vector made with a given capacity once these bytes are in it.
pub record JsonWriter : Type 0 where
  pub to_bytes : JsonStruct → Option Bytes
  pub grown_capacity : ℕ → Bytes → ℕ

abbrev pub ping_json : String
ping_json = "{\"type\":\"ping\"}"

abbrev pub pong_json : String
pong_json = "{\"type\":\"pong\"}"

module _ (w : JsonWriter) where
  unfoldable pub register_json : ℕ → Bytes → Bytes → Option Bytes
  register_json protocol instance' worker =
      if protocol == 1
      then w.to_bytes (register_v1_fields (record { kind = "register"; instance' = instance' }))
      else w.to_bytes (
          register_v2_fields (record {
            kind = "register";
            instance' = instance';
            worker = worker;
            version = protocol;
          }))

  unfoldable pub ready_json : Bytes → Bytes → Option Bytes
  ready_json uid worker =
      w.to_bytes (ready_fields (record { kind = "ready"; uid = uid; worker = worker }))
