-- ===== src/Curve/Evaluate/Between.antt =====
-- The arithmetic of the infinity modes of `Curve.evaluate`, o3d-webgl/curve.js.
use toolbox.Base.{ℕ, suc, ◌+◌, ◌-◌, ◌*◌, ◌/◌, ◌≤◌, ◌<◌, ◌≡◌, ap, ◌⊎◌, false, [], ◌∷◌, arith}
use native.Mathlib.Nat.{div-add-mod', mod-lt, mod-eq_of_lt, mod_self}
use toolbox.Base.Int.{
  ℤ, pos, negsuc, ◌+ℤ◌, ◌-ℤ◌, ◌*ℤ◌, ◌≤ℤ◌, ◌<ℤ◌, int_laws, +ℤ_parts, eq_of_parts, leb_ℤ, -ℤ_parts,
}
use toolbox.Curve.Keys.{
  CurveKey, Outputs, Infinity, constant, linear, cycle, cycle_relative, oscillate, invalid,
}
use toolbox.Curve.Search.{invalid_pre_infinity, invalid_post_infinity}
use toolbox.Curve.Evaluate.{ceil_div, floor_div, rem, Adjusted, done, go_on}

-- The product of two integers that are not negative.
pos-*ℤ : (m n : ℕ) → pos m *ℤ pos n ≡ pos (m * n)
unfolding ◌*ℤ◌
pos-*ℤ m n = ground arith

-- Rounded up, a quotient covers what was divided, and by less than one period.
ceil_bounds : (a s : ℕ) → 0 < s → (a ≤ (a + s - 1) / s * s) × ((a + s - 1) / s * s < a + s)
ceil_bounds a s h =
    let e = div-add-mod' (a + s - 1) s in let m = mod-lt (a + s - 1) h in (omega arith, omega arith)

floor_bounds : (a s : ℕ) → 0 < s → (a / s * s ≤ a) × (a < a / s * s + s)
floor_bounds a s h = let e = div-add-mod' a s in let m = mod-lt a h in (omega arith, omega arith)

-- The whole periods of both roundings, as integers.
pub ceil_div-bounds :
    (a span : ℤ)
    → pos 0 ≤ℤ a
    → pos 0 <ℤ span
    → (a ≤ℤ ceil_div a span *ℤ span) × (ceil_div a span *ℤ span <ℤ a +ℤ span)
ceil_div-bounds (negsuc n) span h g = absurd (omega arith)
ceil_div-bounds (pos n) (negsuc s) h g = absurd (omega arith)
ceil_div-bounds (pos n) (pos s) h g =
    let (low, high) = ceil_bounds n s (omega arith) in
    rw (pos-*ℤ ((n + s - 1) / s) s)
      (omega arith, omega (int_laws, +ℤ_parts, +ℤ_parts (pos n) (pos s)))

pub floor_div-bounds :
    (a span : ℤ)
    → pos 0 ≤ℤ a
    → pos 0 <ℤ span
    → (floor_div a span *ℤ span ≤ℤ a) × (a <ℤ floor_div a span *ℤ span +ℤ span)
floor_div-bounds (negsuc n) span h g = absurd (omega arith)
floor_div-bounds (pos n) (negsuc s) h g = absurd (omega arith)
floor_div-bounds (pos n) (pos s) h g =
    let (low, high) = floor_bounds n s (omega arith) in
    rw (pos-*ℤ (n / s) s)
      (omega arith, omega (int_laws, +ℤ_parts, +ℤ_parts (pos (n / s * s)) (pos s)))

rem_small : (a span : ℤ) → pos 0 ≤ℤ a → a <ℤ span → rem a span ≡ a
rem_small (negsuc n) span h g = absurd (omega arith)
rem_small (pos n) (negsuc s) h g = absurd (omega arith)
rem_small (pos n) (pos s) h g = ap pos (mod-eq_of_lt (omega arith))

rem_full : (span : ℤ) → pos 0 <ℤ span → rem span span ≡ pos 0
rem_full (negsuc n) h = absurd (omega arith)
rem_full (pos n) h = ap pos (mod_self n)

pub suc-*ℤ : (k : ℕ) (span : ℤ) → pos 0 <ℤ span → pos (suc k) *ℤ span ≡ pos k *ℤ span +ℤ span
suc-*ℤ k (negsuc n) h = absurd (omega arith)
suc-*ℤ k (pos n) h =
    rw (pos-*ℤ, pos-*ℤ)
      (eq_of_parts _ _ (omega (int_laws, +ℤ_parts, +ℤ_parts (pos (k * n)) (pos n))))

-- A number, or its mirror image at a point.
abbrev pub Mirrors : ℤ → ℤ → ℤ → Type 0
Mirrors point m n = (n ≡ m) ⊎ (n +ℤ m ≡ point +ℤ point)

pub no_span : (a b : ℤ) → a <ℤ b → leb_ℤ (b -ℤ a) (pos 0) ≡ false
no_span a b h = ground (arith, -ℤ_parts b a)

pub span-pos : (a b : ℤ) → a <ℤ b → pos 0 <ℤ b -ℤ a
span-pos a b h = omega int_laws

module _ (o : Outputs) (first last : CurveKey o.Output) (input : ℤ) where
  open o use {Output, of_ℤ, add, sub, mul}

  abbrev pub span : ℤ
  span = last.input -ℤ first.input

  abbrev pub delta : Output
  delta = sub last.output first.output

  -- The value before the first key, or the place between the keys that it is read at.
  abbrev pub Before : Infinity → Adjusted Output → Type 0
  Before constant (done value messages) = (value ≡ first.output) × (messages ≡ [])
  Before linear (done value messages) = messages ≡ []
  Before invalid (done value messages) =
      (value ≡ first.output) × (messages ≡ invalid_pre_infinity ∷ [])
  Before cycle (go_on n offset) =
      (first.input ≤ℤ n)
      × (n <ℤ last.input)
      × (k : ℕ) × (n ≡ input +ℤ pos k *ℤ span)
      × (offset ≡ of_ℤ (pos 0))
  Before cycle_relative (go_on n offset) =
      (first.input ≤ℤ n)
      × (n <ℤ last.input)
      × (k : ℕ) × (n ≡ input +ℤ pos k *ℤ span)
      × (offset ≡ sub (of_ℤ (pos 0)) (mul (of_ℤ (pos k)) delta))
  Before oscillate (go_on n offset) =
      (first.input ≤ℤ n)
      × (n ≤ℤ last.input)
      × (k : ℕ) × Mirrors last.input (input +ℤ pos k *ℤ (pos 2 *ℤ span)) n
      × (offset ≡ of_ℤ (pos 0))
  Before constant (go_on n offset) = ⊥
  Before linear (go_on n offset) = ⊥
  Before invalid (go_on n offset) = ⊥
  Before cycle (done value messages) = ⊥
  Before cycle_relative (done value messages) = ⊥
  Before oscillate (done value messages) = ⊥

  -- Likewise at the last key and behind it.
  abbrev pub After : Infinity → Adjusted Output → Type 0
  After constant (done value messages) = (value ≡ last.output) × (messages ≡ [])
  After linear (done value messages) = messages ≡ []
  After invalid (done value messages) =
      (value ≡ last.output) × (messages ≡ invalid_post_infinity ∷ [])
  After cycle (go_on n offset) =
      (first.input ≤ℤ n)
      × (n <ℤ last.input)
      × (k : ℕ) × (n ≡ input -ℤ pos k *ℤ span)
      × (offset ≡ of_ℤ (pos 0))
  After cycle_relative (go_on n offset) =
      (first.input ≤ℤ n)
      × (n <ℤ last.input)
      × (k : ℕ) × (n ≡ input -ℤ pos k *ℤ span)
      × (offset ≡ add (of_ℤ (pos 0)) (mul (of_ℤ (pos k)) delta))
  After oscillate (go_on n offset) =
      (first.input ≤ℤ n)
      × (n ≤ℤ last.input)
      × (k : ℕ) × Mirrors first.input (input -ℤ pos k *ℤ (pos 2 *ℤ span)) n
      × (offset ≡ of_ℤ (pos 0))
  After constant (go_on n offset) = ⊥
  After linear (go_on n offset) = ⊥
  After invalid (go_on n offset) = ⊥
  After cycle (done value messages) = ⊥
  After cycle_relative (done value messages) = ⊥
  After oscillate (done value messages) = ⊥

module _ (first last input : ℤ) (h : first <ℤ last) where
  -- A number moved to the first span is left there by the remainder.
  pub wrap_inside : (n : ℤ) → first ≤ℤ n → n <ℤ last → first +ℤ rem (n -ℤ first) (last -ℤ first) ≡ n
  wrap_inside n low high =
      rw (rem_small (n -ℤ first) (last -ℤ first) (omega int_laws) (omega int_laws))
        (eq_of_parts _ _ (omega int_laws))

  pub wrap_end : first +ℤ rem (last -ℤ first) (last -ℤ first) ≡ first
  wrap_end = rw (rem_full (last -ℤ first) (omega int_laws)) (eq_of_parts _ _ (omega int_laws))
