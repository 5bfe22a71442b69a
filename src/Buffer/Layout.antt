-- ===== src/Buffer/Layout.antt =====
-- The layout that `updateTotalComponents_` of o3d-webgl/buffer.js gives to the fields.
use toolbox.Base.{
  ℕ, zero, suc, ◌+◌, ◌*◌, ◌≤◌, ◌<◌, ◌≡◌, refl, sym, ap, ◌∙◌, some, List, [], ◌∷◌, ◌++◌, arith,
  length, get_elem?, ltb, Bool-cases, inl, inr,
}
use mathlib.Core.Option.{some-injective}
use native.Mathlib.Nat.{suc-mul, mul-le-mul_right}
use toolbox.Buffer.{Field, lay_out, sum_components}

-- Each field starts where the one before ends.
abbrev pub Laid : ℕ → List Field → Type 0
Laid start [] = Unit
Laid start (f ∷ fs) = (f.offset ≡ start) × Laid (start + f.num_components) fs

pub lay_out-Laid : (start : ℕ) (fs : List Field) → Laid start (lay_out start fs)
unfolding lay_out
lay_out-Laid start [] = tt
lay_out-Laid start (f ∷ fs) = (refl, lay_out-Laid (start + f.num_components) fs)

sum_components-ge : (start : ℕ) (fs : List Field) → start ≤ sum_components start fs
unfolding sum_components
sum_components-ge start [] = omega arith
sum_components-ge start (f ∷ fs) = omega (arith, sum_components-ge (start + f.num_components) fs)

pub sum_components-lay_out :
    (start : ℕ) (fs : List Field)
    → sum_components start (lay_out start fs) ≡ sum_components start fs
unfolding sum_components lay_out
sum_components-lay_out start [] = refl
sum_components-lay_out start (f ∷ fs) = sum_components-lay_out (start + f.num_components) fs

-- A field that is laid out lies between the start and the sum.
pub Laid-bounds :
    (start : ℕ) (fs : List Field) (i : ℕ) (f : Field)
    → Laid start fs
    → get_elem? fs i ≡ some f
    → (start ≤ f.offset) × (f.offset + f.num_components ≤ sum_components start fs)
unfolding sum_components
Laid-bounds start [] i f h e = cc
Laid-bounds start (g ∷ gs) zero f h e =
    rw (sym (some-injective g f e))
      (omega arith, omega (arith, sum_components-ge (start + g.num_components) gs))
Laid-bounds start (g ∷ gs) (suc i) f h e =
    let (low, high) = Laid-bounds (start + g.num_components) gs i f h.1 e in (omega arith, high)

-- Of two fields the earlier one ends before the later one starts.
pub Laid-apart :
    (start : ℕ) (fs : List Field) (i j : ℕ) (f g : Field)
    → Laid start fs
    → get_elem? fs i ≡ some f
    → get_elem? fs j ≡ some g
    → i < j
    → f.offset + f.num_components ≤ g.offset
Laid-apart start [] i j f g h e e' lt = cc
Laid-apart start (k ∷ ks) i zero f g h e e' lt = absurd (omega arith)
Laid-apart start (k ∷ ks) zero (suc j) f g h e e' lt =
    rw (sym (some-injective k f e))
      (omega (arith, h.0, (Laid-bounds (start + k.num_components) ks j g h.1 e').0))
Laid-apart start (k ∷ ks) (suc i) (suc j) f g h e e' lt =
    Laid-apart (start + k.num_components) ks i j f g h.1 e e' (omega arith)

-- A new field at the end leaves the ones that are laid out where they are.
pub lay_out-push :
    (start : ℕ) (fs : List Field) (i : ℕ) (f new : Field)
    → Laid start fs
    → get_elem? fs i ≡ some f
    → get_elem? (lay_out start (fs ++ new ∷ [])) i ≡ some f
unfolding lay_out
lay_out-push start [] i f new h e = cc
lay_out-push start (g ∷ gs) zero f new h e =
    ap some (ap (λ n. record g { offset = n }) (sym h.0)) ∙ e
lay_out-push start (g ∷ gs) (suc i) f new h e =
    lay_out-push (start + g.num_components) gs i f new h.1 e

pub length-lay_out : (start : ℕ) (fs : List Field) → length (lay_out start fs) ≡ length fs
unfolding lay_out
length-lay_out start [] = refl
length-lay_out start (f ∷ fs) = ap suc (length-lay_out (start + f.num_components) fs)

pub sum_components-append :
    (start : ℕ) (fs : List Field) (f : Field)
    → sum_components start (fs ++ f ∷ []) ≡ sum_components start fs + f.num_components
unfolding sum_components
sum_components-append start [] f = refl
sum_components-append start (g ∷ gs) f = sum_components-append (start + g.num_components) gs f

-- A later row lies behind the whole of an earlier one.
pub row_step : (total a b : ℕ) → a < b → a * total + total ≤ b * total
row_step total a b h =
    let next : suc a ≤ b = omega arith in
    omega (arith, suc-mul a total, mul-le-mul_right total next)

-- Two places in an array of rows agree only in the same row and column.
pub place-injective :
    (total a x b y : ℕ) → x < total → y < total → a * total + x ≡ b * total + y → (a ≡ b) × (x ≡ y)
place-injective total a x b y h k e = elim (Bool-cases (ltb a b)) [
  | inl lt ↦ absurd (omega (arith, row_step total a b (ground arith)))
  | inr ge ↦ elim (Bool-cases (ltb b a)) [
    | inl lt ↦ absurd (omega (arith, row_step total b a (ground arith)))
    | inr ge' ↦ let same : a ≡ b = ground arith in (same, omega (arith, e, ap (◌* total) same))
  ]
]
