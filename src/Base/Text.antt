-- ===== src/Base/Text.antt =====
-- Rust's owned strings and the bytes of a text. A `String` has the bytes it holds and the
-- capacity of its allocation; `&str` is the list of its UTF-8 bytes.
use Prim.Native.Nat.{ℕ, ◌≤◌}
use Prim.Native.Char.{code}
use Prim.Native.String.{String}
use mathlib.Core.Bool.{Bool, true, false, ◌&&◌}
use mathlib.Core.List.{List, [], ◌∷◌}
use prometheus_ws_proxy_clie.Base.Tests.{◌==◌}
use prometheus_ws_proxy_clie.Base.Lists.{length}

-- The bytes of an ASCII literal.
abbrev pub codes : String → List ℕ
codes String.[] = []
codes (String.◌∷◌ c s) = code c ∷ codes s

abbrev pub Bytes : Type 0
Bytes = List ℕ

pub record OwnedString : Type 0 where
  pub bytes : Bytes
  pub capacity : ℕ

-- `String::len`
abbrev pub len : OwnedString → ℕ
len s = length s.bytes

-- What the standard library promises of every `String`.
abbrev pub IsAllocated : OwnedString → Type 0
IsAllocated s = len s ≤ s.capacity

-- `String::new` allocates nothing.
abbrev pub empty_string : OwnedString
empty_string = record { bytes = []; capacity = 0 }

abbrev pub bytes_eq : Bytes → Bytes → Bool
bytes_eq [] [] = true
bytes_eq (a ∷ as') (b ∷ bs) = a == b && bytes_eq as' bs
bytes_eq _ _ = false
