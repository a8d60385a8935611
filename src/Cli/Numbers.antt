-- ===== src/Cli/Numbers.antt =====
-- src/cli.rs: the numeric options are read back from their decimal digits, and are in range.
use prometheus_ws_proxy_clie.Base.{
  Result, String, ℕ, zero, suc, ◌+◌, ◌-◌, ◌*◌, ◌/◌, ◌%◌, ◌≤◌, ◌<◌, ◌≡◌, ◌↔◌, sym, ◌∙◌, ap, some, ok,
  [], ◌∷◌, ◌++◌, Bytes, leb, arith, usize_mod, decimal_from, leb→le, Bool-cases, inl, inr,
}
use mathlib.Core.List.{append_assoc, append-nil}
use prometheus_ws_proxy_clie.Cli.{
  parse_digits, parse_number, parse_unsigned, parse_parallel, parse_protocol,
}

-- 10 ^ n
abbrev pub ten_to : ℕ → ℕ
ten_to zero = 1
ten_to (suc n) = 10 * ten_to n

parse_digits_step :
    (m n d : ℕ) (rest : Bytes)
    → d < 10
    → n * 10 + d < m
    → parse_digits m n ((b'0' + d) ∷ rest) ≡ parse_digits m (n * 10 + d) rest
unfolding parse_digits
parse_digits_step m n d rest small fits = ground arith

decimal_short : (rounds n : ℕ) → n ≤ 9 → decimal_from (suc rounds) n ≡ (b'0' + n) ∷ []
unfolding decimal_from
decimal_short rounds n h = ground arith

decimal_long :
    (rounds n : ℕ)
    → 9 < n
    → decimal_from (suc rounds) n ≡ decimal_from rounds (n / 10) ++ ((b'0' + n % 10) ∷ [])
unfolding decimal_from
decimal_long rounds n h = ground arith

rounds_left : (rounds k : ℕ) → 1 ≤ k → k < ten_to rounds → 0 < rounds
rounds_left zero k h lt = absurd (omega arith)
rounds_left (suc rounds) k h lt = omega arith

-- The digits of a number make it again, whatever follows.
parse_digits-decimal_from :
    (m rounds n : ℕ) (rest : Bytes)
    → n < ten_to rounds
    → n < m
    → 0 < rounds
    → parse_digits m 0 (decimal_from rounds n ++ rest) ≡ parse_digits m n rest
parse_digits-decimal_from m zero n rest h fits pos = absurd (omega arith)
parse_digits-decimal_from m (suc rounds) n rest h fits pos = elim (Bool-cases (leb n 9)) [
  | inl short ↦ rw (decimal_short rounds n (leb→le n 9 short)) (
      parse_digits_step m 0 n rest (ground (arith, short)) (omega arith)
      ∙ ap (λ k. parse_digits m k rest) (omega arith))
  | inr long ↦
      let more : 9 < n = ground (arith, long) in
      rw (decimal_long rounds n more) (
        ap (parse_digits m 0)
          (append_assoc (decimal_from rounds (n / 10)) ((b'0' + n % 10) ∷ []) rest)
        ∙ parse_digits-decimal_from m rounds (n / 10) ((b'0' + n % 10) ∷ rest) (omega arith)
            (omega arith) (rounds_left rounds (n / 10) (omega arith) (omega arith))
        ∙ parse_digits_step m (n / 10) (n % 10) rest (omega arith) (omega arith)
        ∙ ap (λ k. parse_digits m k rest) (omega arith))
]

-- A decimal number has a digit in front, not a sign.
decimal_from-digit :
    (rounds n : ℕ)
    → n < ten_to rounds
    → 0 < rounds
    → (c : ℕ) × (cs : Bytes) × (decimal_from rounds n ≡ c ∷ cs) × (b'0' ≤ c) × (c ≤ b'9')
decimal_from-digit zero n h pos = absurd (omega arith)
decimal_from-digit (suc rounds) n h pos = elim (Bool-cases (leb n 9)) [
  | inl short ↦
      let few : n ≤ 9 = leb→le n 9 short in
      (b'0' + n, [], decimal_short rounds n few, omega arith, omega arith)
  | inr long ↦
      let more : 9 < n = ground (arith, long) in
      let (c, cs, e, low, high) =
        decimal_from-digit rounds (n / 10) (omega arith)
          (rounds_left rounds (n / 10) (omega arith) (omega arith)) in
      (
        c,
        cs ++ ((b'0' + n % 10) ∷ []),
        decimal_long rounds n more ∙ ap (λ ds. ds ++ ((b'0' + n % 10) ∷ [])) e,
        low,
        high,
      )
]

parse_unsigned_unsigned :
    (m c : ℕ) (cs : Bytes) → b'0' ≤ c → parse_unsigned m (c ∷ cs) ≡ parse_digits m 0 (c ∷ cs)
unfolding parse_unsigned parse_number
parse_unsigned_unsigned m c cs h = ground arith

parse_unsigned-decimal_from :
    (m rounds n : ℕ)
    → n < ten_to rounds
    → n < m
    → 0 < rounds
    → parse_unsigned m (decimal_from rounds n) ≡ some n
unfolding parse_digits
parse_unsigned-decimal_from m rounds n h fits pos =
    let (c, cs, e, low, high) = decimal_from-digit rounds n h pos in
    ap (parse_unsigned m) e
    ∙ parse_unsigned_unsigned m c cs low
    ∙ ap (parse_digits m 0) (sym e)
    ∙ ap (parse_digits m 0) (sym (append-nil (decimal_from rounds n)))
    ∙ parse_digits-decimal_from m rounds n [] h fits pos

parse_digits-lt : (m n k : ℕ) (bs : Bytes) → parse_digits m n bs ≡ some k → n < m → k < m
unfolding parse_digits
parse_digits-lt m n k [] e h = ground (arith, e)
parse_digits-lt m n k (c ∷ cs) e h = ground (arith, e, parse_digits-lt m (n * 10 + (c - b'0')) k cs)

parse_unsigned-lt : (m k : ℕ) (bs : Bytes) → 0 < m → parse_unsigned m bs ≡ some k → k < m
unfolding parse_unsigned parse_number
parse_unsigned-lt m k [] pos e = cc
parse_unsigned-lt m k (c ∷ []) pos e = ground (arith, e, parse_digits-lt m 0 k (c ∷ []))
parse_unsigned-lt m k (c ∷ d ∷ cs) pos e =
    ground (arith, e, parse_digits-lt m 0 k (d ∷ cs), parse_digits-lt m 0 k (c ∷ d ∷ cs))

-- 20 digits are enough for a `usize`.
abbrev pub digits : ℕ → Bytes
digits n = decimal_from 20 n

-- A number is read back from its digits exactly if it is in the range, and else from no text.
abbrev pub IsReadBack : (Bytes → Result String ℕ) → (ℕ → Type 0) → ℕ → Type 0
IsReadBack parse InRange n =
    (InRange n ↔ (parse (digits n) ≡ ok n)) × ((value : Bytes) → parse value ≡ ok n → InRange n)

abbrev pub IsParallel : ℕ → Type 0
IsParallel n = (0 < n) × (n < usize_mod)

abbrev pub IsProtocol : ℕ → Type 0
IsProtocol n = (1 ≤ n) × (n ≤ 3)

parse_parallel-digits : (n : ℕ) → IsReadBack parse_parallel IsParallel n
unfolding parse_parallel
parse_parallel-digits n = (
  (
    λ h.
        ground
          (arith, parse_unsigned-decimal_from usize_mod 20 n (omega arith) h.1 (omega arith), h),
    λ e. in_range (digits n) e,
  ),
  in_range,
)
  where
    in_range : (value : Bytes) → parse_parallel value ≡ ok n → (0 < n) × (n < usize_mod)
    in_range value e = ground (arith, e, parse_unsigned-lt usize_mod n value)

parse_protocol-digits : (n : ℕ) → IsReadBack parse_protocol IsProtocol n
unfolding parse_protocol
parse_protocol-digits n = (
  (
    λ h. ground (
      arith,
      parse_unsigned-decimal_from 256 20 n (omega (arith, h)) (omega (arith, h)) (omega arith),
      h,
    ),
    λ e. in_range (digits n) e,
  ),
  in_range,
)
  where
    in_range : (value : Bytes) → parse_protocol value ≡ ok n → (1 ≤ n) × (n ≤ 3)
    in_range value e = ground (arith, e)

-- A number is read back from its decimal digits as the number of connections exactly if it is a
-- positive `usize`, and as the wire version exactly if it is 1, 2 or 3; no text at all is read as
-- another one.
pub parse-digits :
    (n : ℕ) → IsReadBack parse_parallel IsParallel n × IsReadBack parse_protocol IsProtocol n
parse-digits n = (parse_parallel-digits n, parse_protocol-digits n)
