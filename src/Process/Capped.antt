-- ===== src/Process/Capped.antt =====
-- src/main.rs: which log targets are those of the transport libraries.
use prometheus_ws_proxy_clie.Base.{
  ◌≡◌, ◌↔◌, ◌⊎◌, inl, inr, refl, ap, ◌∙◌, Bool, true, false, not, ◌||◌, ◌&&◌, some, List, [], ◌∷◌,
  ◌++◌, Bytes, codes, bytes_eq, arith, strip_prefix, Option-cases, Bool-cases,
}
use prometheus_ws_proxy_clie.Process.{
  Level, warn, error, info, debug, trace, any, matches_prefix, transport_target,
  transport_log_targets, is_severe, transport_level_allowed,
}
use prometheus_ws_proxy_clie.Process.Startup.{LogFilter, capped}

-- The text is some prefix, or a submodule of one.
abbrev pub IsModuleOf : Bytes → Bytes → Type 0
IsModuleOf target prefix =
    (target ≡ prefix) ⊎ ((path : Bytes) × (target ≡ prefix ++ (codes "::" ++ path)))

-- It is in a list.
abbrev pub AnyOf : (Bytes → Type 0) → List Bytes → Type 0
AnyOf P [] = ⊥
AnyOf P (x ∷ xs) = P x ⊎ AnyOf P xs

bytes_eq_iff : (a b : Bytes) → (bytes_eq a b ≡ true) ↔ (a ≡ b)
bytes_eq_iff [] [] = ((λ _. refl), λ _. refl)
bytes_eq_iff [] (b ∷ bs) = ((λ e. cc), λ e. cc)
bytes_eq_iff (a ∷ more) [] = ((λ e. cc), λ e. cc)
bytes_eq_iff (a ∷ more) (b ∷ bs) =
    let ih = bytes_eq_iff more bs in ((λ e. ground (arith, e, ih)), λ e. ground (arith, e, ih))

strip_prefix_iff : (p s rest : Bytes) → (strip_prefix p s ≡ some rest) ↔ (s ≡ p ++ rest)
unfolding strip_prefix
strip_prefix_iff [] s rest = ((λ e. cc), λ e. cc)
strip_prefix_iff (x ∷ p) [] rest = ((λ e. cc), λ e. cc)
strip_prefix_iff (x ∷ p) (c ∷ s) rest =
    let ih = strip_prefix_iff p s rest in ((λ e. ground (arith, e, ih)), λ e. ground (arith, e, ih))

matched : (target prefix : Bytes) → matches_prefix target prefix ≡ true → IsModuleOf target prefix
unfolding matches_prefix
matched target prefix h = elim (Bool-cases (bytes_eq target prefix)) [
  | inl same ↦ inl ((bytes_eq_iff target prefix).0 same)
  | inr other ↦ elim (Option-cases (strip_prefix prefix target)) [
    | inl missing ↦ cc (rw (other, matches_prefix, missing) at h)
    | inr (suffix, found) ↦ elim (Option-cases (strip_prefix (codes "::") suffix)) [
      | inl bare ↦ cc (rw (other, matches_prefix, found, bare) at h)
      | inr (path, sub) ↦ inr (
        path,
        (strip_prefix_iff prefix target suffix).0 found
            ∙ ap (λ s. prefix ++ s) ((strip_prefix_iff (codes "::") suffix path).0 sub),
      )
    ]
  ]
]

matches : (target prefix : Bytes) → IsModuleOf target prefix → matches_prefix target prefix ≡ true
unfolding matches_prefix
matches target prefix (inl same) = rw ((bytes_eq_iff target prefix).1 same, matches_prefix) refl
matches target prefix (inr (path, e)) =
    let found = (strip_prefix_iff prefix target (codes "::" ++ path)).1 e in
    let sub = (strip_prefix_iff (codes "::") (codes "::" ++ path) path).1 refl in
    ground (arith, found, sub)

any-AnyOf :
    (target : Bytes) (prefixes : List Bytes)
    → (any (matches_prefix target) prefixes ≡ true) ↔ AnyOf (IsModuleOf target) prefixes
any-AnyOf target [] = ((λ e. cc), λ a. absurd a)
any-AnyOf target (p ∷ ps) = (
  (λ e. elim (Bool-cases (matches_prefix target p)) [
    | inl here ↦ inl (matched target p here)
    | inr not_here ↦ inr ((any-AnyOf target ps).0 (rw not_here at e))
  ]),
  λ a. elim a [
    | inl here ↦ rw (matches target p here) refl
    | inr later ↦ ground (arith, (any-AnyOf target ps).1 later)
  ],
)

severe : (level : Level) → is_severe level ≡ true → (level ≡ warn) ⊎ (level ≡ error)
severe warn e = inl refl
severe error e = inr refl
severe info e = cc
severe debug e = cc
severe trace e = cc

-- The test of a level, where the first test says whether `P` holds.
allowed_iff :
    (test : Bool) (P : Type 0) (level : Level)
    → ((test ≡ true) ↔ P)
    → ((not test || is_severe level) ≡ true) ↔ ((¬ P) ⊎ (level ≡ warn) ⊎ (level ≡ error))
allowed_iff false P level iff = ((λ _. inl (λ p. cc (iff.1 p))), λ _. refl)
allowed_iff true P level iff = (
  (λ e. inr (severe level e)),
  λ s. elim s [
    | inl outside ↦ absurd (outside (iff.0 refl))
    | inr (inl e) ↦ rw e refl
    | inr (inr e) ↦ rw e refl
  ],
)

capped_iff :
    (user allowed : Bool) (P : Type 0)
    → ((allowed ≡ true) ↔ P)
    → ((user && allowed) ≡ true) ↔ ((user ≡ true) × P)
capped_iff false allowed P iff = ((λ e. cc), λ p. cc p.0)
capped_iff true allowed P iff = ((λ e. (refl, iff.0 e)), λ p. iff.1 p.1)

-- A log target is one of the transport libraries' exactly if it is one of the seven names or a
-- module below one; and such a target is allowed exactly at the levels of warnings and errors,
-- while any other is allowed at every level. Whatever filter the user sets, the log shows exactly
-- the records that it lets through and that are allowed.
pub transport_target-AnyOf :
    (user_filter : LogFilter) (target : Bytes) (level : Level)
    → ((transport_target target ≡ true) ↔ AnyOf (IsModuleOf target) transport_log_targets)
      × ((transport_level_allowed target level ≡ true) ↔ (
          (¬ AnyOf (IsModuleOf target) transport_log_targets) ⊎ (level ≡ warn) ⊎ (level ≡ error)))
      × ((capped user_filter target level ≡ true) ↔ (
          (user_filter target level ≡ true)
          × ((¬ AnyOf (IsModuleOf target) transport_log_targets)
              ⊎ (level ≡ warn)
              ⊎ (level ≡ error))))
unfolding transport_target transport_level_allowed capped
transport_target-AnyOf user_filter target level =
    let iff = any-AnyOf target transport_log_targets in
    let allowed = allowed_iff (any (matches_prefix target) transport_log_targets) _ level iff in
    (
      iff,
      allowed,
      capped_iff (user_filter target level) (transport_level_allowed target level) _ allowed,
    )
