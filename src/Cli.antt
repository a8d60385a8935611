-- ===== src/Cli.antt =====
-- src/cli.rs: the options, and the parsers of the two numeric ones. The rest is derived by the
-- option parser.
pub mod Numbers
pub mod Tests
use prometheus_ws_proxy_clie.Base.{
  ℕ, ◌+◌, ◌-◌, ◌*◌, ◌≤◌, Bool, true, false, ◌&&◌, Option, none, some, Result, ok, err, List, [],
  ◌∷◌, String, Bytes, ltb, leb, ◌==◌, if◌then◌else◌, usize_mod,
}

pub record Cli : Type 0 where
  pub config : Bytes
  pub parallel : ℕ
  pub protocol : ℕ
  pub sentry_dsn : Option Bytes
  pub verbose : ℕ

abbrev pub default_parallel : ℕ
default_parallel = 3

abbrev pub default_protocol : ℕ
default_protocol = 3

-- The value of a decimal digit.
abbrev pub digit_of : ℕ → Option ℕ
digit_of c = if leb b'0' c && leb c b'9' then some (c - b'0') else none

-- The digits of a number below `modulus`, after some that make `n`.
unfoldable pub parse_digits : ℕ → ℕ → Bytes → Option ℕ
parse_digits modulus n [] = some n
parse_digits modulus n (c ∷ cs) = elim (digit_of c) [
  | none ↦ none
  | some d ↦ elim (ltb (n * 10 + d) modulus) [
    | true ↦ parse_digits modulus (n * 10 + d) cs
    | false ↦ none
  ]
]

-- At least one digit.
unfoldable pub parse_number : ℕ → Bytes → Option ℕ
unfolding parse_digits
parse_number modulus [] = none
parse_number modulus (c ∷ cs) = parse_digits modulus 0 (c ∷ cs)

-- `str::parse` at an unsigned type: one plus sign may stand in front.
unfoldable pub parse_unsigned : ℕ → Bytes → Option ℕ
unfolding parse_number
parse_unsigned modulus [] = none
parse_unsigned modulus (c ∷ cs) =
    if c == b'+' then parse_number modulus cs else parse_number modulus (c ∷ cs)

unfoldable pub parse_parallel : Bytes → Result String ℕ
parse_parallel value = elim (parse_unsigned usize_mod value) [
  | none ↦ err "parallel must be a positive integer"
  | some parallel ↦ if parallel == 0 then err "parallel must be at least 1" else ok parallel
]

unfoldable pub parse_protocol : Bytes → Result String ℕ
parse_protocol value = elim (parse_unsigned 256 value) [
  | none ↦ err "protocol must be one of 1, 2, or 3"
  | some protocol ↦
      if leb 1 protocol && leb protocol 3
      then ok protocol
      else err "protocol must be one of 1, 2, or 3"
]
