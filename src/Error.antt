-- ===== src/Error.antt =====
-- `BoxError` of src/lib.rs: the errors that the client passes up, by where they come from.
pub mod Display
use prometheus_ws_proxy_clie.Base.{Bool, false, String, Result, ok, err}
use prometheus_ws_proxy_clie.Protocol.{FieldLimitError}
use prometheus_ws_proxy_clie.Memory.{MemoryBudgetError}

pub data BoxError : Type 0 where
  field_limit : FieldLimitError → BoxError
  memory_budget : MemoryBudgetError → BoxError
  -- `reqwest::Error`, and whether `is_timeout` holds of it
  http : Bool → BoxError
  -- tungstenite, `serde_json`, `url`, header values, UTF-8, allocation, a joined task, a file
  websocket json url header utf8 allocation join io : BoxError
  -- an error made from a text
  message : String → BoxError

-- `?` on the error types of this crate.
abbrev pub or_field_limit : Result FieldLimitError (Unit {0}) → Result BoxError (Unit {0})
or_field_limit (ok a) = ok a
or_field_limit (err e) = err (field_limit e)

-- `downcast_ref::<reqwest::Error>().is_some_and(is_timeout)`
abbrev pub is_timeout : BoxError → Bool
is_timeout (http timed_out) = timed_out
is_timeout _ = false
