-- ===== src/Math/Loops.antt =====
-- The counting loops of o3djs/math.js and its reads of an array.
use toolbox.Base.{ℕ, zero, suc, List, [], ◌∷◌, if◌then◌else◌, ◌==◌}
use toolbox.Ring.{Numbers}

-- `for (var i = 0; i < k; ++i) r[i] = f(i)`.
abbrev pub tabulate : {A : Type 0} → ℕ → (ℕ → A) → List A
tabulate zero f = []
tabulate (suc k) f = f zero ∷ tabulate k (λ i. f (suc i))

-- `a[i]`, with what a read outside the array gives.
abbrev pub read : {A : Type 0} → A → List A → ℕ → A
read missing [] i = missing
read missing (x ∷ l) zero = x
read missing (x ∷ l) (suc i) = read missing l i

-- A counter that steps over one index: `if (i == x) i++`.
abbrev pub step_over : ℕ → ℕ → ℕ
step_over x i = if i == x then suc i else i

-- `k` rounds of a loop whose counter `i` steps over `x`: what each round makes of the counter.
abbrev pub tabulate_without : {A : Type 0} → ℕ → ℕ → ℕ → (ℕ → A) → List A
tabulate_without zero x i f = []
tabulate_without (suc k) x i f = let j = step_over x i in f j ∷ tabulate_without k x (suc j) f

module _ (n : Numbers) where
  -- `for (var i = 0; i < k; ++i) r += f(i)`.
  abbrev pub accumulate : n.Number → ℕ → (ℕ → n.Number) → n.Number
  accumulate r zero f = r
  accumulate r (suc k) f = accumulate (n.add r (f zero)) k (λ i. f (suc i))
