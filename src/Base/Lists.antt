-- ===== src/Base/Lists.antt =====
-- Lists measured by native numbers, and predicates that hold of every entry.
use Prim.Native.Nat.{ℕ, zero, suc, ◌+◌}
use mathlib.Core.Path.{◌≡◌}
use mathlib.Core.List.{List, [], ◌∷◌, ◌++◌}
use mathlib.Core.Option.{Option, none, some}
use native.Mathlib.Omega.{arith}

module _ {ℓ} {A : Type ℓ} where
  abbrev pub length : List A → ℕ
  length [] = 0
  length (x ∷ xs) = suc (length xs)

  pub length-append : (xs ys : List A) → length (xs ++ ys) ≡ length xs + length ys
  length-append [] ys = omega arith
  length-append (x ∷ xs) ys = omega (arith, length-append xs ys)

  abbrev pub replicate : ℕ → A → List A
  replicate zero a = []
  replicate (suc n) a = a ∷ replicate n a

abbrev pub All {ℓ κ} : {A : Type ℓ} → (A → Type κ) → List A → Type κ
All P [] = Unit
All P (x ∷ xs) = P x × All P xs

module _ {ℓ κ} {A : Type ℓ} (P : A → Type κ) where
  pub All-append : (xs : List A) (x : A) → All P xs → P x → All P (xs ++ (x ∷ []))
  All-append [] x a e = (e, tt)
  All-append (y ∷ xs) x a e = (a.0, All-append xs x a.1 e)

  pub All-at : (xs : List A) (x : A) (ys : List A) → All P (xs ++ (x ∷ ys)) → P x
  All-at [] x ys a = a.0
  All-at (y ∷ xs) x ys a = All-at xs x ys a.1

  pub All-replace :
      (xs : List A) (x y : A) (ys : List A) → All P (xs ++ (x ∷ ys)) → P y → All P (xs ++ (y ∷ ys))
  All-replace [] x y ys a e = (e, a.1)
  All-replace (z ∷ xs) x y ys a e = (a.0, All-replace xs x y ys a.1 e)

-- The sum of a measure over the entries.
abbrev pub total {ℓ} : {A : Type ℓ} → (A → ℕ) → List A → ℕ
total f [] = 0
total f (x ∷ xs) = f x + total f xs

pub total-append {ℓ} :
    {A : Type ℓ} (f : A → ℕ) (xs ys : List A) → total f (xs ++ ys) ≡ total f xs + total f ys
total-append f [] ys = omega arith
total-append f (x ∷ xs) ys = omega (arith, total-append f xs ys)

-- `Iterator::try_fold` with an optional result.
abbrev pub try_fold {ℓ κ} : {S : Type ℓ} {A : Type κ} → (S → A → Option S) → S → List A → Option S
try_fold f s [] = some s
try_fold f s (x ∷ xs) = elim (f s x) [ none ↦ none | some t ↦ try_fold f t xs ]
