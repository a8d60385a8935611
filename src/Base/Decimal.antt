-- ===== src/Base/Decimal.antt =====
-- `u16::to_string`: the decimal digits of a number. Five rounds are enough below 100000.
use Prim.Native.Nat.{ℕ, zero, suc, ◌+◌, ◌/◌, ◌%◌}
use mathlib.Core.Path.{◌≡◌}
use mathlib.Core.List.{[], ◌∷◌, ◌++◌}
use native.Mathlib.Omega.{arith}
use prometheus_ws_proxy_clie.Base.Tests.{leb, if◌then◌else◌}
use prometheus_ws_proxy_clie.Base.Lists.{length, length-append}
use prometheus_ws_proxy_clie.Base.Text.{Bytes}

unfoldable pub decimal_from : ℕ → ℕ → Bytes
decimal_from zero n = []
decimal_from (suc rounds) n =
    if leb n 9 then (b'0' + n) ∷ [] else decimal_from rounds (n / 10) ++ ((b'0' + n % 10) ∷ [])

unfoldable pub decimal : ℕ → Bytes
unfolding decimal_from
decimal n = decimal_from 5 n

pub length-decimal_from :
    (rounds n : ℕ)
    → length (decimal_from (suc rounds) n)
      ≡ (if leb n 9 then 1 else length (decimal_from rounds (n / 10)) + 1)
unfolding decimal_from
length-decimal_from rounds n =
    ground (arith, length-append (decimal_from rounds (n / 10)) ((b'0' + n % 10) ∷ []))
