-- ===== src/Memory/Pool.antt =====
-- src/memory.rs: the budget as a sequential pool of bytes, which the interleaved operations refine.
use prometheus_ws_proxy_clie.Base.{
  ℕ, ◌+◌, ◌-◌, ◌≤◌, ◌<◌, ◌≡◌, arith, usize_mod, List, [], ◌∷◌, wrapping_add,
}
use prometheus_ws_proxy_clie.Memory.{new}
use prometheus_ws_proxy_clie.Memory.Atomic.{
  Machine, Step, acquire, refuse, mark, reserve, grow, shrink, leave, release, Reach, here, next,
  sum, IsBalanced, Reach-IsBalanced, fresh, fresh-IsBalanced, sum-split, sum-replace,
}

-- What a client sees of a budget: the limit, and the bytes that are not available.
pub record Pool : Type 0 where
  pub limit : ℕ
  pub gone : ℕ

-- What a step does to the pool.
pub data Label : Type 0 where
  takes gives refuses : ℕ → Label
  nothing : Label

-- A taking is granted exactly if it fits under the limit.
pub data Move (p : Pool) : Label → Pool → Type 0 where
  take :
      (n : ℕ) {q : Pool}
      → p.gone + n ≤ p.limit
      → q ≡ record p { gone = p.gone + n }
      → Move p (takes n) q
  give : (n : ℕ) {q : Pool} → n ≤ p.gone → q ≡ record p { gone = p.gone - n } → Move p (gives n) q
  no_room : (n : ℕ) {q : Pool} → p.limit < p.gone + n → q ≡ p → Move p (refuses n) q
  idle : {q : Pool} → q ≡ p → Move p nothing q

-- A run of the pool, with what its moves do in order.
pub data Moves (p : Pool) : List Label → Pool → Type 0 where
  done : Moves p [] p
  also : {ls : List Label} {l : Label} {q r : Pool} → Moves p ls q → Move q l r → Moves p (l ∷ ls) r

abbrev pub label : {s t : Machine} → Step s t → Label
label (acquire n _ _ _) = takes n
label (refuse n _ _) = refuses n
label (release _ _ n _ _) = gives n
label (mark _ _ _ _ _) = nothing
label (reserve _ _ _ _ _) = nothing
label (grow _ _ _ _ _ _ _ _ _) = nothing
label (shrink _ _ _ _ _ _ _) = nothing
label (leave _ _ _ _ _) = nothing

-- The last label first.
abbrev pub labels : {s t : Machine} → Reach s t → List Label
labels here = []
labels (next r st) = label st ∷ labels r

-- The bytes that are live, in acquisition, or still to be given back.
abbrev pub pool_of : Machine → Pool
pool_of s = record { limit = s.budget.limit; gone = sum s.live + sum s.acquired + sum s.owed }

Step-Move : {s t : Machine} (st : Step s t) → IsBalanced s → Move (pool_of s) (label st) (pool_of t)
Step-Move (acquire n sum_of fits e) b = take n (ground arith) (ground arith)
Step-Move (refuse n fails e) b = no_room n (ground arith) (ground arith)
Step-Move (mark xs ys m at e) b = idle (ground arith)
Step-Move (reserve xs ys n at e) b = idle (ground (arith, sum-split xs ys n))
Step-Move (grow xs ys us vs n r from at e) b = idle (
    ground (arith, b, sum-split xs ys n, sum-replace us vs r (wrapping_add r n), sum-split us vs r))
Step-Move (shrink us vs r bytes at le e) b = idle (ground (arith, sum-replace us vs r bytes))
Step-Move (leave us vs r at e) b = idle (ground (arith, sum-split us vs r))
Step-Move (release xs ys n at e) b =
    give n (ground (arith, sum-split xs ys n)) (ground (arith, sum-split xs ys n))

-- The interleaved budget refines a sequential pool: every interleaving of the atomic operations of any
-- number of holders of a new budget is a run of the pool from empty, in the same order, in which
-- an acquisition takes its bytes exactly if they fit under the limit with what is live, in acquisition
-- or owed, a refusal changes nothing, only `fetch_sub` gives bytes back, and nothing else is seen.
pub Reach-fresh-Moves :
    (limit : ℕ) {t : Machine}
    → limit < usize_mod
    → (r : Reach (fresh limit) t)
    → Moves (record { limit = limit; gone = 0 }) (labels r) (pool_of t)
unfolding new
Reach-fresh-Moves limit h here = done
Reach-fresh-Moves limit h (next r st) =
    also (Reach-fresh-Moves limit h r)
      (Step-Move st (Reach-IsBalanced r (fresh-IsBalanced limit h)))
