-- ===== src/Curve/Evaluate/Moved.antt =====
-- The infinity modes of `Curve.evaluate`, o3d-webgl/curve.js, one by one.
use toolbox.Base.{ℕ, suc, ◌≡◌, refl, sym, ap, ◌⊎◌, inl, inr, true, false, Bool-cases, arith}
use toolbox.Base.Int.{
  ℤ, pos, pos_part, neg_part, ◌+ℤ◌, ◌-ℤ◌, ◌*ℤ◌, ◌≤ℤ◌, ◌<ℤ◌, pos-nat_abs, neg-nat_abs, int_laws,
  eq_of_parts, +ℤ_parts, leb_ℤ, ltb_ℤ, eqb_ℤ, eq_of_eqb_ℤ, ≤ℤ_total,
}
use toolbox.Curve.Keys.{
  CurveKey, Outputs, Infinity, constant, linear, cycle, cycle_relative, oscillate, invalid,
}
use toolbox.Curve.Evaluate.{ceil_div, floor_div, rem, abs, go_on, pre_adjust, post_adjust, adjust}
use toolbox.Curve.Evaluate.Between.{
  ceil_div-bounds, floor_div-bounds, suc-*ℤ, no_span, wrap_inside, wrap_end, Mirrors, Before, After,
}

-- The value of the absolute value, on both sides of 0.
abs-cases : (a : ℤ) → ((pos 0 ≤ℤ a) × (abs a ≡ a)) ⊎ ((a ≤ℤ pos 0) × (abs a ≡ pos 0 -ℤ a))
abs-cases a = elim (≤ℤ_total (pos 0) a) [
  | inl h ↦ inl (h, sym (pos-nat_abs a h))
  | inr h ↦ inr (h, sym (neg-nat_abs a h))
]

double_pos : (s : ℤ) → pos 0 <ℤ s → pos 2 *ℤ s ≡ s +ℤ s
unfolding ◌*ℤ◌
double_pos s h = eq_of_parts _ _ (ground (arith, +ℤ_parts s s))

module _ (first last input : ℤ) (h : first <ℤ last) where
  -- A number within one span of a point, reflected at the point to the side of the keys.
  reflect_low :
      (m : ℤ)
      → first ≤ℤ m
      → m ≤ℤ last +ℤ (last -ℤ first)
      → (first ≤ℤ last -ℤ abs (m -ℤ last))
        × (last -ℤ abs (m -ℤ last) ≤ℤ last)
        × Mirrors last m (last -ℤ abs (m -ℤ last))
  reflect_low m low high = elim (abs-cases (m -ℤ last)) [
    | inl (side, e) ↦ rw e (omega int_laws, omega int_laws, inr (eq_of_parts _ _ (omega int_laws)))
    | inr (side, e) ↦ rw e (omega int_laws, omega int_laws, inl (eq_of_parts _ _ (omega int_laws)))
  ]

  reflect_high :
      (m : ℤ)
      → first -ℤ (last -ℤ first) ≤ℤ m
      → m ≤ℤ last
      → (first ≤ℤ first +ℤ abs (m -ℤ first))
        × (first +ℤ abs (m -ℤ first) ≤ℤ last)
        × Mirrors first m (first +ℤ abs (m -ℤ first))
  reflect_high m low high = elim (abs-cases (m -ℤ first)) [
    | inl (side, e) ↦ rw e (omega int_laws, omega int_laws, inl (eq_of_parts _ _ (omega int_laws)))
    | inr (side, e) ↦ rw e (omega int_laws, omega int_laws, inr (eq_of_parts _ _ (omega int_laws)))
  ]

module _ (first last input : ℤ) (h : first <ℤ last) where
  -- The places that the modes reach from before the keys.
  cycle_before :
      input <ℤ first
      → (first ≤ℤ input +ℤ ceil_div (first -ℤ input) (last -ℤ first) *ℤ (last -ℤ first))
        × (input +ℤ ceil_div (first -ℤ input) (last -ℤ first) *ℤ (last -ℤ first) <ℤ last)
  cycle_before before =
      let (low, high) =
        ceil_div-bounds (first -ℤ input) (last -ℤ first) (omega int_laws) (omega int_laws) in
      (omega int_laws, omega int_laws)

  turn_before :
      input <ℤ first
      → (first
          ≤ℤ input
            +ℤ ceil_div (first -ℤ input) (pos 2 *ℤ (last -ℤ first)) *ℤ (pos 2 *ℤ (last -ℤ first)))
        × (input
              +ℤ ceil_div (first -ℤ input) (pos 2 *ℤ (last -ℤ first)) *ℤ (pos 2 *ℤ (last -ℤ first))
            ≤ℤ last +ℤ (last -ℤ first))
  turn_before before =
      let double = double_pos (last -ℤ first) (omega int_laws) in
      let (low, high) =
        ceil_div-bounds (first -ℤ input) (pos 2 *ℤ (last -ℤ first)) (omega int_laws)
          (omega (int_laws, ap pos_part double, ap neg_part double)) in
      (omega int_laws, omega (int_laws, ap pos_part double, ap neg_part double))

  -- And from the last key on.
  cycle_after :
      last ≤ℤ input
      → (first <ℤ input -ℤ ceil_div (input -ℤ last) (last -ℤ first) *ℤ (last -ℤ first))
        × (input -ℤ ceil_div (input -ℤ last) (last -ℤ first) *ℤ (last -ℤ first) ≤ℤ last)
  cycle_after past =
      let (low, high) =
        ceil_div-bounds (input -ℤ last) (last -ℤ first) (omega int_laws) (omega int_laws) in
      (omega int_laws, omega int_laws)

  relative_after :
      last ≤ℤ input
      → (first ≤ℤ input -ℤ floor_div (input -ℤ first) (last -ℤ first) *ℤ (last -ℤ first))
        × (input -ℤ floor_div (input -ℤ first) (last -ℤ first) *ℤ (last -ℤ first) <ℤ last)
  relative_after past =
      let (low, high) =
        floor_div-bounds (input -ℤ first) (last -ℤ first) (omega int_laws) (omega int_laws) in
      (omega int_laws, omega int_laws)

  turn_after :
      last ≤ℤ input
      → (first -ℤ (last -ℤ first)
          ≤ℤ input
            -ℤ ceil_div (input -ℤ last) (pos 2 *ℤ (last -ℤ first)) *ℤ (pos 2 *ℤ (last -ℤ first)))
        × (input
              -ℤ ceil_div (input -ℤ last) (pos 2 *ℤ (last -ℤ first)) *ℤ (pos 2 *ℤ (last -ℤ first))
            ≤ℤ last)
  turn_after past =
      let double = double_pos (last -ℤ first) (omega int_laws) in
      let (low, high) =
        ceil_div-bounds (input -ℤ last) (pos 2 *ℤ (last -ℤ first)) (omega int_laws)
          (omega (int_laws, ap pos_part double, ap neg_part double)) in
      (omega (int_laws, ap pos_part double, ap neg_part double), omega int_laws)

module _ (first last input : ℤ) (h : first <ℤ last) where
  abbrev wrapped : ℤ → ℤ
  wrapped n = first +ℤ rem (n -ℤ first) (last -ℤ first)

  -- The remainder takes the place of the last key to the first one, another period further.
  wrap_after :
      (c : ℕ) (m : ℤ)
      → m ≡ input -ℤ pos c *ℤ (last -ℤ first)
      → first <ℤ m
      → m ≤ℤ last
      → (first ≤ℤ wrapped m)
        × (wrapped m <ℤ last)
        × (k : ℕ) × (wrapped m ≡ input -ℤ pos k *ℤ (last -ℤ first))
  wrap_after c m e low high = elim (Bool-cases (eqb_ℤ m last)) [
    | inl t ↦
        let same : m ≡ last = eq_of_eqb_ℤ m last t in
        let next = suc-*ℤ c (last -ℤ first) (omega int_laws) in
        rw (same, wrap_end first last input h)
          (
            omega int_laws,
            omega int_laws,
            suc c,
            eq_of_parts _ _ (
                omega (
                  int_laws,
                  ap pos_part next,
                  ap neg_part next,
                  ap pos_part e,
                  ap neg_part e,
                  ap pos_part same,
                  ap neg_part same,
                )),
          )
    | inr f ↦
        rw (wrap_inside first last input h m (omega arith) (ground arith))
          (omega arith, ground arith, c, e)
  ]

module _ (o : Outputs) (first other last : CurveKey o.Output) (input : ℤ)
    (h : first.input <ℤ last.input) where
  pre_adjust-Before :
      (infinity : Infinity)
      → input <ℤ first.input
      → Before o first last input infinity (pre_adjust o infinity first other last input)
  unfolding pre_adjust
  pre_adjust-Before constant before = rw (no_span first.input last.input h) (refl, refl)
  pre_adjust-Before invalid before = rw (no_span first.input last.input h) (refl, refl)
  pre_adjust-Before linear before =
      rw (no_span first.input last.input h)
        (elim (Bool-cases (ltb_ℤ (pos 0) (other.input -ℤ first.input))) [
          | inl t ↦ rw t refl
          | inr f ↦ rw f refl
        ])
  pre_adjust-Before cycle before =
      let (low, high) = cycle_before first.input last.input input h before in
      rw (no_span first.input last.input h, wrap_inside first.input last.input input h _ low high)
        (low, high, _, refl, refl)
  pre_adjust-Before cycle_relative before =
      let (low, high) = cycle_before first.input last.input input h before in
      rw (no_span first.input last.input h, wrap_inside first.input last.input input h _ low high)
        (low, high, _, refl, refl)
  pre_adjust-Before oscillate before =
      let (low, high) = turn_before first.input last.input input h before in
      let (low', high', mirror) = reflect_low first.input last.input input h _ low high in
      rw (no_span first.input last.input h) (low', high', _, mirror, refl)

  post_adjust-After :
      (infinity : Infinity)
      → last.input ≤ℤ input
      → After o first last input infinity (post_adjust o infinity first other last input)
  unfolding post_adjust
  post_adjust-After constant past = rw (no_span first.input last.input h) (refl, refl)
  post_adjust-After invalid past = rw (no_span first.input last.input h) (refl, refl)
  post_adjust-After linear past =
      rw (no_span first.input last.input h)
        (elim (Bool-cases (ltb_ℤ (pos 0) (last.input -ℤ other.input))) [
          | inl t ↦ rw t refl
          | inr f ↦ rw f refl
        ])
  post_adjust-After cycle past =
      let (low, high) = cycle_after first.input last.input input h past in
      let (low', high', k, e) = wrap_after first.input last.input input h _ _ refl low high in
      rw (no_span first.input last.input h) (low', high', k, e, refl)
  post_adjust-After cycle_relative past =
      let (low, high) = relative_after first.input last.input input h past in
      rw (no_span first.input last.input h, wrap_inside first.input last.input input h _ low high)
        (low, high, _, refl, refl)
  post_adjust-After oscillate past =
      let (low, high) = turn_after first.input last.input input h past in
      let (low', high', mirror) = reflect_high first.input last.input input h _ low high in
      rw (no_span first.input last.input h) (low', high', _, mirror, refl)

-- Where the last of two keys or more is past the first, an input before the first key is moved by
-- the mode `preInfinity` and an input at the last key or past it by `postInfinity`: to a place
-- between the keys that is a whole number of spans away (CYCLE, and CYCLE_RELATIVE, whose offset is
-- that number times the difference of the outputs), or a whole number of double spans away or
-- mirrored at the end (OSCILLATE), or to an output at once. Any other input stays.
pub adjust-Moved :
    (o : Outputs) (pre_infinity post_infinity : Infinity)
    (first second before_last last : CurveKey o.Output) (input : ℤ)
    → first.input <ℤ last.input
    → (input <ℤ first.input
        → Before o first last input pre_infinity
            (adjust o pre_infinity post_infinity first second before_last last input))
      × (last.input ≤ℤ input
          → After o first last input post_infinity
              (adjust o pre_infinity post_infinity first second before_last last input))
      × (first.input ≤ℤ input
          → input <ℤ last.input
          → adjust o pre_infinity post_infinity first second before_last last input
            ≡ go_on input (o.of_ℤ (pos 0)))
unfolding adjust
adjust-Moved o pre_infinity post_infinity first second before_last last input h = (
  λ before.
      let t : ltb_ℤ input first.input ≡ true = ground arith in
      rw t (pre_adjust-Before o first second last input h pre_infinity before),
  λ past.
      let f : ltb_ℤ input first.input ≡ false = ground arith in
      let t : leb_ℤ last.input input ≡ true = ground arith in
      rw (f, t) (post_adjust-After o first before_last last input h post_infinity past),
  λ low high.
      let f : ltb_ℤ input first.input ≡ false = ground arith in
      let f' : leb_ℤ last.input input ≡ false = ground arith in rw (f, f') refl,
)
