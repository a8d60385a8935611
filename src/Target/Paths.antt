-- ===== src/Target/Paths.antt =====
-- src/target.rs: the base path and the WebSocket path.
use mathlib.Core.List.{append_assoc}
use prometheus_ws_proxy_clie.Base.{
  ℕ, ◌≡◌, ◌≢◌, refl, sym, ap, ◌∙◌, inl, inr, true, false, none, some, [], ◌∷◌, ◌++◌, Bytes, codes,
  bytes_eq, arith, ◌==◌, length, length-append, Bool-cases,
}
use prometheus_ws_proxy_clie.Target.{
  trim_cons, trim_end_slashes, strip_suffix, with_trailing_slash, is_ws_path, split_trimmed,
  split_path,
}

-- A path with no slash at its end.
abbrev pub IsTrimmed : Bytes → Type 0
IsTrimmed [] = Unit
IsTrimmed (c ∷ []) = c ≢ b'/'
IsTrimmed (c ∷ d ∷ ds) = IsTrimmed (d ∷ ds)

trim_cons-IsTrimmed : (c : ℕ) (cs : Bytes) → IsTrimmed cs → IsTrimmed (trim_cons c cs)
trim_cons-IsTrimmed c [] h = elim (Bool-cases (c == b'/')) [
  | inl e ↦ rw e tt
  | inr e ↦ rw e (ground arith)
]
trim_cons-IsTrimmed c (d ∷ ds) h = h

trim_end_slashes-IsTrimmed : (cs : Bytes) → IsTrimmed (trim_end_slashes cs)
unfolding trim_end_slashes
trim_end_slashes-IsTrimmed [] = tt
trim_end_slashes-IsTrimmed (c ∷ cs) =
    trim_cons-IsTrimmed c (trim_end_slashes cs) (trim_end_slashes-IsTrimmed cs)

-- Trimming leaves a trimmed path alone, and takes off a slash.
trim_end_slashes_trimmed : (cs : Bytes) → IsTrimmed cs → trim_end_slashes cs ≡ cs
unfolding trim_end_slashes
trim_end_slashes_trimmed [] h = refl
trim_end_slashes_trimmed (c ∷ []) h = ground arith
trim_end_slashes_trimmed (c ∷ d ∷ ds) h = ap (trim_cons c) (trim_end_slashes_trimmed (d ∷ ds) h)

trim_end_slashes-append_slash :
    (cs : Bytes) → trim_end_slashes (cs ++ codes "/") ≡ trim_end_slashes cs
unfolding trim_end_slashes
trim_end_slashes-append_slash [] = refl
trim_end_slashes-append_slash (c ∷ cs) = ap (trim_cons c) (trim_end_slashes-append_slash cs)

IsTrimmed-append : (cs : Bytes) (d : ℕ) (ds : Bytes) → IsTrimmed (d ∷ ds) → IsTrimmed (cs ++ d ∷ ds)
IsTrimmed-append [] d ds h = h
IsTrimmed-append (c ∷ []) d ds h = h
IsTrimmed-append (c ∷ b ∷ bs) d ds h = IsTrimmed-append (b ∷ bs) d ds h

bytes_eq-length : (a b : Bytes) → bytes_eq a b ≡ true → length a ≡ length b
bytes_eq-length [] [] h = refl
bytes_eq-length [] (y ∷ b) h = cc
bytes_eq-length (x ∷ a) [] h = cc
bytes_eq-length (x ∷ a) (y ∷ b) h = ground (arith, bytes_eq-length a b)

bytes_eq_longer : (x : ℕ) (xs suffix : Bytes) → bytes_eq (x ∷ (xs ++ suffix)) suffix ≡ false
bytes_eq_longer x xs suffix = elim (Bool-cases (bytes_eq (x ∷ (xs ++ suffix)) suffix)) [
  | inl e ↦
      absurd (omega (arith, bytes_eq-length (x ∷ (xs ++ suffix)) suffix e, length-append xs suffix))
  | inr e ↦ e
]

strip_suffix-append_ws : (xs : Bytes) → strip_suffix (codes "/ws") (xs ++ codes "/ws") ≡ some xs
unfolding strip_suffix
strip_suffix-append_ws [] = refl
strip_suffix-append_ws (x ∷ xs) =
    rw (bytes_eq_longer x xs (codes "/ws"), strip_suffix-append_ws xs) refl

strip_suffix_trimmed :
    (c : ℕ) (cs : Bytes) → IsTrimmed (c ∷ cs) → strip_suffix (codes "/") (c ∷ cs) ≡ none
unfolding strip_suffix
strip_suffix_trimmed c [] h = ground arith
strip_suffix_trimmed c (d ∷ ds) h = ground (arith, strip_suffix_trimmed d ds h)

with_trailing_slash_trimmed :
    (c : ℕ) (cs : Bytes) → IsTrimmed (c ∷ cs) → with_trailing_slash (c ∷ cs) ≡ (c ∷ cs) ++ codes "/"
unfolding with_trailing_slash
with_trailing_slash_trimmed c cs h = rw (strip_suffix_trimmed c cs h) refl

with_trailing_slash_ws :
    (b : Bytes)
    → IsTrimmed b
    → with_trailing_slash (b ++ codes "/ws") ≡ with_trailing_slash b ++ codes "ws/"
with_trailing_slash_ws [] h = unfold with_trailing_slash strip_suffix in refl
with_trailing_slash_ws (c ∷ cs) h =
    rw (with_trailing_slash_trimmed c (cs ++ codes "/ws") ws_IsTrimmed)
      (rw (with_trailing_slash_trimmed c cs h) (simp append_assoc))
  where
    ws_IsTrimmed : IsTrimmed (c ∷ (cs ++ codes "/ws"))
    ws_IsTrimmed = IsTrimmed-append (c ∷ cs) b'/' (codes "ws") (λ e. absurd (omega arith))

-- The paths for a base with no slash at its end.
abbrev pub paths_of : Bytes → Bytes × Bytes
paths_of b = (with_trailing_slash b, with_trailing_slash b ++ codes "ws/")

split_path-trimmed : (b : Bytes) → IsTrimmed b → split_path b ≡ split_trimmed b
unfolding split_path
split_path-trimmed b h = ap split_trimmed (trim_end_slashes_trimmed b h)

split_path-append_slash : (b : Bytes) → split_path (b ++ codes "/") ≡ split_path b
unfolding split_path
split_path-append_slash b = ap split_trimmed (trim_end_slashes-append_slash b)

split_trimmed-base : (b : Bytes) → is_ws_path b ≡ false → split_trimmed b ≡ paths_of b
unfolding split_trimmed
split_trimmed-base b h = rw h refl

split_trimmed-ws : (b : Bytes) → IsTrimmed b → split_trimmed (b ++ codes "/ws") ≡ paths_of b
unfolding split_trimmed
split_trimmed-ws b h =
    rw (strip_suffix-append_ws b)
      (ap (λ p. (with_trailing_slash b, p)) (with_trailing_slash_ws b h))

-- A base path with or without a slash at its end, and its WebSocket path with or without one, all
-- give the same two paths: the base with a slash at its end, and this followed by `ws/`.
pub split_path_forms :
    (b : Bytes)
    → IsTrimmed b
    → is_ws_path b ≡ false
    → (split_path b ≡ paths_of b)
      × (split_path (b ++ codes "/") ≡ paths_of b)
      × (split_path (b ++ codes "/ws") ≡ paths_of b)
      × (split_path (b ++ codes "/ws/") ≡ paths_of b)
split_path_forms b h base = (
  plain,
  split_path-append_slash b ∙ plain,
  ready,
  ap split_path (sym (append_assoc b (codes "/ws") (codes "/")))
      ∙ split_path-append_slash (b ++ codes "/ws")
      ∙ ready,
)
  where
    plain : split_path b ≡ paths_of b
    plain = split_path-trimmed b h ∙ split_trimmed-base b base

    ready : split_path (b ++ codes "/ws") ≡ paths_of b
    ready =
        split_path-trimmed (b ++ codes "/ws")
          (IsTrimmed-append b b'/' (codes "ws") (λ e. absurd (omega arith)))
        ∙ split_trimmed-ws b h

split_path-with_trailing_slash :
    (t : Bytes) → IsTrimmed t → split_path (with_trailing_slash t) ≡ split_trimmed t
split_path-with_trailing_slash [] h = unfold split_path with_trailing_slash in refl
split_path-with_trailing_slash (c ∷ cs) h =
    ap split_path (with_trailing_slash_trimmed c cs h)
    ∙ split_path-append_slash (c ∷ cs)
    ∙ split_path-trimmed (c ∷ cs) h

split_trimmed_ws_path :
    (t : Bytes) → is_ws_path t ≡ true → (split_trimmed t).1 ≡ with_trailing_slash t
unfolding split_trimmed
split_trimmed_ws_path t ws = rw ws refl

split_trimmed_idempotent :
    (t : Bytes) → IsTrimmed t → split_path (split_trimmed t).1 ≡ split_trimmed t
split_trimmed_idempotent t h = elim (Bool-cases (is_ws_path t)) [
  | inl ws ↦ ap split_path (split_trimmed_ws_path t ws) ∙ split_path-with_trailing_slash t h
  | inr base ↦
      ap (λ r. split_path r.1) (split_trimmed-base t base)
      ∙ ap split_path (sym (with_trailing_slash_ws t h))
      ∙ split_path-with_trailing_slash (t ++ codes "/ws")
          (IsTrimmed-append t b'/' (codes "ws") (λ e. absurd (omega arith)))
      ∙ split_trimmed-ws t h
      ∙ sym (split_trimmed-base t base)
]

-- The WebSocket path of any path is split into that WebSocket path and the same base.
split_path_idempotent : (p : Bytes) → split_path (split_path p).1 ≡ split_path p
split_path_idempotent p =
    ap (λ r. split_path r.1) (split_path_lem p)
    ∙ split_trimmed_idempotent (trim_end_slashes p) (trim_end_slashes-IsTrimmed p)
    ∙ sym (split_path_lem p)
  where
    split_path_lem : (q : Bytes) → split_path q ≡ split_trimmed (trim_end_slashes q)
    split_path_lem q = unfold split_path in refl
