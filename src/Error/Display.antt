-- ===== src/Error/Display.antt =====
-- src/protocol.rs and src/memory.rs: the texts of the two errors of the crate. A `usize` has at most 20
-- digits.
use prometheus_ws_proxy_clie.Base.{ℕ, ◌≡◌, refl, ◌++◌, Bytes, codes, decimal_from}
use prometheus_ws_proxy_clie.Protocol.{FieldLimitError}
use prometheus_ws_proxy_clie.Memory.{MemoryBudgetError}

abbrev digits : ℕ → Bytes
digits n = decimal_from 20 n

unfoldable fmt_field_limit : FieldLimitError → Bytes
unfolding decimal_from
fmt_field_limit e =
    codes e.field
    ++ (codes " is "
        ++ (digits e.length
            ++ (codes " bytes, exceeding the " ++ (digits e.limit ++ codes " byte limit"))))

unfoldable fmt_memory_budget : MemoryBudgetError → Bytes
unfolding decimal_from
fmt_memory_budget e =
    codes "response memory budget exceeded: requested "
    ++ (digits e.requested
        ++ (codes " bytes with " ++ (digits e.available ++ codes " bytes available")))

long_uid_text :
    fmt_field_limit (record { field = "uid"; length = 129; limit = 128 })
    ≡ codes "uid is 129 bytes, exceeding the 128 byte limit"
unfolding fmt_field_limit
long_uid_text = refl

full_budget_text :
    fmt_memory_budget (record { requested = 5; available = 4 })
    ≡ codes "response memory budget exceeded: requested 5 bytes with 4 bytes available"
unfolding fmt_memory_budget
full_budget_text = refl
