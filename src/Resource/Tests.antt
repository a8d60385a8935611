-- ===== src/Resource/Tests.antt =====
-- The properties of a resource call at concrete inputs.
use prometheus_ws_proxy_clie.Base.{
  ℕ, All, subst, ◌+◌, ◌≤◌, ◌<◌, ◌≡◌, refl, true, some, none, ok, [], ◌∷◌, List, Result, Bytes,
  codes, length, arith, max, ◌⊎◌,
}
use prometheus_ws_proxy_clie.Error.{BoxError}
use prometheus_ws_proxy_clie.Memory.Tests.{six_of_ten, uid_of_three}
use prometheus_ws_proxy_clie.Resource.{Others, Exporter, Runtime, call_resource}
use prometheus_ws_proxy_clie.Resource.Grown.{IsRuntime, Respects}
use prometheus_ws_proxy_clie.Resource.Call.{Answers, ClientRespects, call_resource-IsAnswer}

-- An allocator that never gives more than is asked for.
abbrev pub exact_runtime : Runtime
exact_runtime = record {
  with_capacity = λ n. n;
  try_reserve_exact = λ capacity n additional. some (max capacity (n + additional));
  to_owned = λ bs. record { bytes = bs; capacity = length bs };
  is_utf8 = λ _. true;
}

pub exact_runtime-IsRuntime : IsRuntime exact_runtime
exact_runtime-IsRuntime = record {
  room = λ n. omega arith;
  reserved = λ capacity n additional c e. ground arith;
  copied = λ bs. (refl, omega arith);
}

abbrev one_chunk : Exporter
one_chunk = record {
  status = 200;
  content_length = none;
  items = record { others = λ n. n + 3; chunk = ok (codes "m") } ∷ [];
}

-- Every URL is answered by that chunk.
abbrev pub chunk_client : Bytes → Others × Result BoxError Exporter
chunk_client _ = (λ n. n, ok one_chunk)

abbrev pub node_only : List (Bytes × Bytes)
node_only = (codes "node", codes "http://127.0.0.1:9100/metrics") ∷ []

-- The others never have less than six bytes.
abbrev pub SixHeld : ℕ → Type 0
SixHeld n = 6 ≤ n

pub chunk_client-ClientRespects :
    ClientRespects exact_runtime exact_runtime-IsRuntime SixHeld chunk_client node_only uid_of_three
      (codes "node")
chunk_client-ClientRespects url = (
  (λ n room le q. omega (arith, le, q)),
  λ e same.
      let one : one_chunk ≡ e = cc in
      subst (λ c. All (λ item. Respects SixHeld item.others) c.items) one
        ((λ n room le q. omega (arith, le, q)), tt),
)

call_resource-IsAnswer_example :
    ((10 < 6 + 3)
      × (call_resource exact_runtime chunk_client node_only uid_of_three (codes "node") six_of_ten
          ≡ some (none, six_of_ten)))
    ⊎ ((6 + 3 ≤ 10)
        × Answers exact_runtime exact_runtime-IsRuntime SixHeld chunk_client node_only uid_of_three
            (codes "node")
            six_of_ten
            (call_resource exact_runtime chunk_client node_only uid_of_three
              (codes "node")
              six_of_ten))
call_resource-IsAnswer_example =
    call_resource-IsAnswer exact_runtime exact_runtime-IsRuntime SixHeld chunk_client node_only
      uid_of_three (codes "node") six_of_ten chunk_client-ClientRespects (omega arith) (omega arith)
