-- ===== src/Memory/Atomic.antt =====
-- src/memory.rs: the budget under concurrent holders. Each atomic operation and each write to a
-- holder's own reservation is a step of its own; steps of different holders interleave freely.
use prometheus_ws_proxy_clie.Base.{
  ℕ, ◌+◌, ◌-◌, ◌≤◌, ◌<◌, ◌≡◌, refl, none, some, List, [], ◌∷◌, ◌++◌, arith, ◌∙◌, max, total,
  total-append, usize_mod, wrapping_add, wrapping_sub,
}
use prometheus_ws_proxy_clie.Memory.{MemoryBudget, next_used, new}

-- Besides the budget: the bytes of each live reservation; the bytes that `fetch_update` has added
-- and no reservation has recorded yet; the bytes that a shrunk or dropped reservation has still to
-- give back by `fetch_sub`; and the values that `fetch_max` has still to write.
pub record Machine : Type 0 where
  pub budget : MemoryBudget
  pub live : List ℕ
  pub acquired : List ℕ
  pub owed : List ℕ
  pub marks : List ℕ

abbrev pub with_used : MemoryBudget → ℕ → MemoryBudget
with_used b n = record b { used = n }

abbrev pub with_mark : MemoryBudget → ℕ → MemoryBudget
with_mark b n = record b { high_watermark = max b.high_watermark n }

pub data Step (s t : Machine) : Type 0 where
  -- `fetch_update` in `try_acquire`
  acquire :
      (n next : ℕ)
      → next_used s.budget n ≡ some next
      → t ≡ record s {
        budget = with_used s.budget next;
        acquired = n ∷ s.acquired;
        marks = wrapping_add s.budget.used n ∷ s.marks;
      }
      → Step s t
  refuse : (n : ℕ) → next_used s.budget n ≡ none → t ≡ s → Step s t
  -- `fetch_max` in `try_acquire`
  mark :
      (xs ys : List ℕ) (m : ℕ)
      → s.marks ≡ xs ++ m ∷ ys
      → t ≡ record s { budget = with_mark s.budget m; marks = xs ++ ys }
      → Step s t
  -- `try_reserve` returns
  reserve :
      (xs ys : List ℕ) (n : ℕ)
      → s.acquired ≡ xs ++ n ∷ ys
      → t ≡ record s { live = n ∷ s.live; acquired = xs ++ ys }
      → Step s t
  -- `self.bytes += additional` in `try_grow`
  grow :
      (xs ys us vs : List ℕ) (n r : ℕ)
      → s.acquired ≡ xs ++ n ∷ ys
      → s.live ≡ us ++ r ∷ vs
      → t ≡ record s { live = us ++ wrapping_add r n ∷ vs; acquired = xs ++ ys }
      → Step s t
  -- `self.bytes = bytes` in `shrink_to`
  shrink :
      (us vs : List ℕ) (r bytes : ℕ)
      → s.live ≡ us ++ r ∷ vs
      → bytes ≤ r
      → t ≡ record s { live = us ++ bytes ∷ vs; owed = (r - bytes) ∷ s.owed }
      → Step s t
  -- the start of `drop`
  leave :
      (us vs : List ℕ) (r : ℕ)
      → s.live ≡ us ++ r ∷ vs
      → t ≡ record s { live = us ++ vs; owed = r ∷ s.owed }
      → Step s t
  -- `fetch_sub` in `shrink_to` and `drop`
  release :
      (xs ys : List ℕ) (n : ℕ)
      → s.owed ≡ xs ++ n ∷ ys
      → t ≡ record s { budget = with_used s.budget (wrapping_sub s.budget.used n); owed = xs ++ ys }
      → Step s t

pub data Reach (s : Machine) : Machine → Type 0 where
  here : Reach s s
  next : {t u : Machine} → Reach s t → Step t u → Reach s u

abbrev pub sum : List ℕ → ℕ
sum = total λ n. n

abbrev pub highest : List ℕ → ℕ
highest [] = 0
highest (x ∷ xs) = max x (highest xs)

-- Every byte of the usage is held, in acquisition, or owed; nothing passes the limit.
pub record IsBalanced (s : Machine) : Type 0 where
  pub word : s.budget.limit < usize_mod
  pub exact : s.budget.used ≡ sum s.live + sum s.acquired + sum s.owed
  pub bounded : s.budget.used ≤ s.budget.limit
  pub marked : s.budget.high_watermark ≤ s.budget.limit
  pub pending : highest s.marks ≤ s.budget.limit
  pub within : s.budget.used ≤ max s.budget.high_watermark (highest s.marks)

pub sum-split : (xs ys : List ℕ) (n : ℕ) → sum (xs ++ n ∷ ys) ≡ sum (xs ++ ys) + n
sum-split xs ys n = omega (arith, total-append (λ k. k) xs (n ∷ ys), total-append (λ k. k) xs ys)

pub sum-replace : (xs ys : List ℕ) (n m : ℕ) → sum (xs ++ n ∷ ys) + m ≡ sum (xs ++ m ∷ ys) + n
sum-replace xs ys n m = omega (arith, sum-split xs ys n, sum-split xs ys m)

highest-split : (xs ys : List ℕ) (m : ℕ) → highest (xs ++ m ∷ ys) ≡ max m (highest (xs ++ ys))
highest-split [] ys m = refl
highest-split (x ∷ xs) ys m = omega (arith, highest-split xs ys m)

pub Step-IsBalanced : {s t : Machine} → Step s t → IsBalanced s → IsBalanced t
Step-IsBalanced (acquire n sum_of took e) b = ground arith
Step-IsBalanced (refuse n refused e) b = ground arith
Step-IsBalanced (mark xs ys m at e) b = ground (arith, highest-split xs ys m)
Step-IsBalanced (reserve xs ys n at e) b = ground (arith, sum-split xs ys n)
Step-IsBalanced (grow xs ys us vs n r from at e) b =
    ground (arith, sum-split xs ys n, sum-replace us vs r (wrapping_add r n), sum-split us vs r)
Step-IsBalanced (shrink us vs r bytes at le e) b = ground (arith, sum-replace us vs r bytes)
Step-IsBalanced (leave us vs r at e) b = ground (arith, sum-split us vs r)
Step-IsBalanced (release xs ys n at e) b = ground (arith, sum-split xs ys n)

abbrev pub fresh : ℕ → Machine
fresh limit = record { budget = new limit; live = []; acquired = []; owed = []; marks = [] }

pub fresh-IsBalanced : (limit : ℕ) → limit < usize_mod → IsBalanced (fresh limit)
unfolding new
fresh-IsBalanced limit h = ground arith

pub Reach-IsBalanced : {s t : Machine} → Reach s t → IsBalanced s → IsBalanced t
Reach-IsBalanced here b = b
Reach-IsBalanced (next r st) b = Step-IsBalanced st (Reach-IsBalanced r b)

-- In every interleaving of the atomic operations of any number of holders of a new budget, the
-- usage never passes the limit, it is exactly the bytes that are held, in acquisition or still to
-- be given back, and neither the watermark nor a value still to be written to it passes the limit.
pub Reach-fresh-IsBalanced :
    (limit : ℕ) {t : Machine} → limit < usize_mod → Reach (fresh limit) t → IsBalanced t
Reach-fresh-IsBalanced limit h r = Reach-IsBalanced r (fresh-IsBalanced limit h)

-- Once every holder has dropped its reservation and every operation is complete, the budget is
-- empty again, whatever the interleaving was.
pub Reach-fresh-empty :
    (limit : ℕ) {t : Machine}
    → limit < usize_mod
    → Reach (fresh limit) t
    → t.live ≡ []
    → t.acquired ≡ []
    → t.owed ≡ []
    → t.budget.used ≡ 0
Reach-fresh-empty limit {t} h r l a o = (Reach-fresh-IsBalanced limit h r).exact ∙ rw (l, a, o) refl
