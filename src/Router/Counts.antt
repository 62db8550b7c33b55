-- ===== src/Router/Counts.antt =====
-- memu/parallel_worker_router.py: the count of a worker's tasks, which may fall below zero.
use fumemory.Base.{ℕ, zero, suc, ltb, ◌≤◌, ◌≡◌, Bool, true, arith}

pub data ℤ : Type 0 where
  pos : ℕ → ℤ
  negsuc : ℕ → ℤ

unfoldable pub up : ℤ → ℤ
up (pos n) = pos (suc n)
up (negsuc zero) = pos 0
up (negsuc (suc n)) = negsuc n

unfoldable pub down : ℤ → ℤ
down (pos zero) = negsuc 0
down (pos (suc n)) = pos n
down (negsuc n) = negsuc (suc n)

unfoldable pub below : ℤ → ℕ → Bool
below (pos n) m = ltb n m
below (negsuc n) m = true

-- At most `m`.
abbrev pub AtMost : ℤ → ℕ → Type 0
AtMost (pos n) m = n ≤ m
AtMost (negsuc n) m = Unit

pub up-AtMost : (z : ℤ) (m : ℕ) → below z m ≡ true → AtMost (up z) m
unfolding up below
up-AtMost (pos n) m h = ground (arith, h)
up-AtMost (negsuc zero) m h = omega arith
up-AtMost (negsuc (suc n)) m h = tt

pub down-AtMost : (z : ℤ) (m : ℕ) → AtMost z m → AtMost (down z) m
unfolding down
down-AtMost (pos zero) m h = tt
down-AtMost (pos (suc n)) m h = omega arith
down-AtMost (negsuc n) m h = tt
