-- ===== src/Ordering/Bounds.antt =====
-- What a midpoint promises to its two neighbours.
use edupay_academico.Prelude.{ℕ, ◌+◌, ◌≤◌, ◌<◌, ◌≡◌, ◌↔◌, true, false, Option, none, some, arith}
use edupay_academico.Ordering.{compute_midpoint}

-- A neighbour that is missing sets no bound.
abbrev pub Above : Option ℕ → ℕ → Type 0
Above none p = Unit
Above (some prev) p = prev < p

abbrev pub Under : ℕ → Option ℕ → Type 0
Under p none = Unit
Under p (some next) = p < next

-- A midpoint that asks for no rebalance lies strictly between its neighbours and is at least 1.
pub midpoint_between :
    (prev next : Option ℕ)
    → (compute_midpoint prev next).needs_rebalance ≡ false
    → Above prev (compute_midpoint prev next).position
      × Under (compute_midpoint prev next).position next
      × (1 ≤ (compute_midpoint prev next).position)
unfolding compute_midpoint
midpoint_between none none h = ground arith
midpoint_between none (some n) h = ground arith
midpoint_between (some p) none h = ground arith
midpoint_between (some p) (some n) h = ground arith

-- A rebalance is asked for exactly when no position from 1 on lies strictly between the
-- neighbours.
pub needs_rebalance_iff :
    (prev next : Option ℕ)
    → ((compute_midpoint prev next).needs_rebalance ≡ true)
      ↔ ((p : ℕ) → 1 ≤ p → Above prev p → Under p next → ⊥)
unfolding compute_midpoint
needs_rebalance_iff none none = (λ h. ground arith, λ h. absurd (h 1 (omega arith) tt tt))
needs_rebalance_iff none (some n) = (λ h p a b c. ground arith, λ h. ground (arith, h 1))
needs_rebalance_iff (some m) none =
    (λ h. ground arith, λ h. absurd (h (m + 1) (omega arith) (omega arith) tt))
needs_rebalance_iff (some m) (some n) = (λ h p a b c. ground arith, λ h. ground (arith, h (m + 1)))

pub lt_of_Above : (prev : Option ℕ) (p m : ℕ) → prev ≡ some p → Above prev m → p < m
lt_of_Above none p m e h = cc
lt_of_Above (some q) p m e h = ground arith

pub lt_of_Under : (next : Option ℕ) (n m : ℕ) → next ≡ some n → Under m next → m < n
lt_of_Under none n m e h = cc
lt_of_Under (some q) n m e h = ground arith
