-- ===== src/Session/ConnectionTests.antt =====
-- The properties of a connection at concrete inputs.
use prometheus_ws_proxy_clie.Session.Tests.{no_frames}
use prometheus_ws_proxy_clie.Base.{
  ℕ, ◌≤◌, ◌≡◌, refl, true, Option, some, ok, [], ◌∷◌, List, Bytes, codes, length, arith, decimal,
}
use prometheus_ws_proxy_clie.Protocol.{
  IncomingMessage, request, register_json, validate_instance, validate_worker, max_instance_size,
  max_worker_size,
}
use prometheus_ws_proxy_clie.Protocol.Tests.{rfc_writer, exact}
use prometheus_ws_proxy_clie.Memory.{MemoryBudget}
use prometheus_ws_proxy_clie.Memory.Tests.{six_of_ten}
use prometheus_ws_proxy_clie.Delivery.Tests.{small_response, slow_lib, plain_context}
use prometheus_ws_proxy_clie.Session.{Session, text}
use prometheus_ws_proxy_clie.Session.Tests.{node_connection, busy_session}
use prometheus_ws_proxy_clie.Delivery.Post.{add_websocket_cf_headers}
use prometheus_ws_proxy_clie.Session.Turn.{Event, completion, shutdown, turn}
use prometheus_ws_proxy_clie.Session.Conserved.{TurnCovers, turn-Covers}
use prometheus_ws_proxy_clie.Session.Connect.{Network, new_session, open_session}
use prometheus_ws_proxy_clie.Session.Concluded.{open_session-ok}

pub rfc_grows : (n : ℕ) (bs : Bytes) → length bs ≤ rfc_writer.grown_capacity n bs
rfc_grows n bs = omega arith

turn-Covers_example : TurnCovers 5 busy_session six_of_ten (
    turn node_connection
      (completion no_frames (some (some small_response)) (ok tt))
      busy_session
      six_of_ten)
turn-Covers_example =
    turn-Covers node_connection rfc_grows
      (completion no_frames (some (some small_response)) (ok tt)) busy_session six_of_ten
      (omega arith) (refl, refl) (omega arith)

-- Every URL is a request, and every handshake succeeds.
abbrev pub open_network : Network Bytes
open_network = record { is_request = λ _. true; connect = λ _ _ _. some (ok tt) }

abbrev pub from_str : Bytes → Option IncomingMessage
from_str _ = some (request (exact (codes "u1")) (exact (codes "node")))

abbrev pub registration : Bytes
registration =
    codes "{\"type\":\"register\",\"instance\":\"i-1\",\"worker\":\"worker-1\",\"version\":3}"

opened_plain :
    open_session slow_lib open_network rfc_writer from_str plain_context (codes "worker-1")
    ≡ ok (new_session (text registration ∷ []))
unfolding open_session validate_instance validate_worker add_websocket_cf_headers register_json
    decimal
opened_plain = refl

open_session-ok_example :
    (length plain_context.config.instance' ≤ max_instance_size)
    × (length (codes "worker-1") ≤ max_worker_size)
    × (j : Bytes) × (register_json rfc_writer 3 plain_context.config.instance' (codes "worker-1")
        ≡ some j)
    × (new_session (text registration ∷ []) ≡ new_session (text j ∷ []))
open_session-ok_example =
    open_session-ok slow_lib open_network rfc_writer from_str plain_context (codes "worker-1")
      (new_session (text registration ∷ [])) opened_plain

-- A shutdown, with nothing before it.
abbrev stopped : List ((Session → MemoryBudget → Session × MemoryBudget) × Event)
stopped = (λ s b. (s, b), shutdown) ∷ []
