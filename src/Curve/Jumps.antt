-- ===== src/Curve/Jumps.antt =====
-- `isDiscontinuous` of o3d-webgl/curve.js and the keys at one input.
use toolbox.Base.{
  ℕ, zero, suc, ◌≤◌, ◌<◌, ◌≡◌, refl, sym, ap, ◌∙◌, ◌⊎◌, inl, inr, Bool, true, false, not, ◌&&◌,
  ◌||◌, some, List, [], ◌∷◌, ◌==◌, ltb, get_elem?, get_elem?-some, get_elem?-lt, length, Bool-cases,
  if-both, arith,
}
use mathlib.Core.Option.{some-injective}
use toolbox.Base.Int.{ℤ, pos, eqb_ℤ, ltb_ℤ, ◌≤ℤ◌}
use toolbox.Curve.Keys.{
  CurveKey, Curve, Outputs, has_jump, resort, update_curve_info, is_discontinuous, invalidate_cache,
}
use toolbox.Curve.Edits.Counted.{
  count_steps, count_steps-le, CountsSteps, update_curve_info-CountsSteps,
}
use toolbox.Curve.Search.Spans.{IsSorted}
use toolbox.Curve.Sorted.{FlagHolds, update_curve_info-IsSorted}

-- The comparison of outputs is that of numbers.
pub record SameLaws (o : Outputs) : Type 0 where
  pub same_refl : (x : o.Output) → o.same x x ≡ true
  pub same_trans : (x y z : o.Output) → o.same x y ≡ true → o.same y z ≡ true → o.same x z ≡ true

module _ (o : Outputs) where
  open o use {Output, same}

  -- Two keys at one input with different outputs.
  abbrev pub Jump : List (CurveKey Output) → Type 0
  Jump ks =
      (i : ℕ) × (j : ℕ) × (k : CurveKey Output) × (l : CurveKey Output) × (get_elem? ks i ≡ some k)
      × (get_elem? ks j ≡ some l)
      × (eqb_ℤ k.input l.input ≡ true)
      × (same k.output l.output ≡ false)

  -- No two keys at one input have different outputs.
  abbrev pub Smooth : List (CurveKey Output) → Type 0
  Smooth ks =
      (i j : ℕ) (k l : CurveKey Output)
      → i ≤ j
      → get_elem? ks i ≡ some k
      → get_elem? ks j ≡ some l
      → eqb_ℤ k.input l.input ≡ true
      → same k.output l.output ≡ true

  has_jump-Jump : (ks : List (CurveKey Output)) → has_jump o ks ≡ true → Jump ks
  unfolding has_jump
  has_jump-Jump [] e = cc
  has_jump-Jump (k ∷ []) e = cc
  has_jump-Jump (k ∷ l ∷ ls) e =
      elim (Bool-cases (eqb_ℤ k.input l.input && not (same k.output l.output))) [
        | inl here ↦ (0, 1, k, l, refl, refl, ground arith, ground arith)
        | inr other ↦
            let later : has_jump o (l ∷ ls) ≡ true = ground arith in
            let (i, j, k', l', at_i, at_j, eq, differ) = has_jump-Jump (l ∷ ls) later in
            (suc i, suc j, k', l', at_i, at_j, eq, differ)
      ]

  first_pair : (a b rest : Bool) → ((a && not b) || rest) ≡ false → a ≡ true → b ≡ true
  first_pair a b rest h e = ground arith

  neighbours :
      (ks : List (CurveKey Output)) (i : ℕ) (k l : CurveKey Output)
      → has_jump o ks ≡ false
      → get_elem? ks i ≡ some k
      → get_elem? ks (suc i) ≡ some l
      → eqb_ℤ k.input l.input ≡ true
      → same k.output l.output ≡ true
  unfolding has_jump
  neighbours [] i k l h e f eq = cc
  neighbours (m ∷ []) i k l h e f eq = cc
  neighbours (m ∷ n ∷ ns) zero k l h e f eq =
      let at_k : m ≡ k = some-injective m k e in
      let at_l : n ≡ l = some-injective n l f in
      rw (sym at_k, sym at_l)
        (first_pair (eqb_ℤ m.input n.input) (same m.output n.output) (has_jump o (n ∷ ns)) h
          (rw (sym at_k, sym at_l) at eq))
  neighbours (m ∷ n ∷ ns) (suc i) k l h e f eq = neighbours (n ∷ ns) i k l (ground arith) e f eq

  same_at :
      (ks : List (CurveKey Output)) (i j : ℕ) (k l : CurveKey Output)
      → SameLaws o
      → i ≡ j
      → get_elem? ks i ≡ some k
      → get_elem? ks j ≡ some l
      → same k.output l.output ≡ true
  same_at ks i j k l laws ij e f =
      let one_key : k ≡ l = some-injective k l (sym e ∙ ap (get_elem? ks) ij ∙ f) in
      rw one_key (laws.same_refl l.output)

  -- A number between two equal ones is equal to both.
  squeezed :
      (a b c : ℤ) → a ≤ℤ b → b ≤ℤ c → eqb_ℤ a c ≡ true → (eqb_ℤ a b ≡ true) × (eqb_ℤ b c ≡ true)
  squeezed a b c h g e = (ground arith, ground arith)

  has_jump-Smooth :
      (ks : List (CurveKey Output)) → SameLaws o → IsSorted ks → has_jump o ks ≡ false → Smooth ks
  has_jump-Smooth ks laws sorted h i zero k l le e f eq = same_at ks i 0 k l laws (omega arith) e f
  has_jump-Smooth ks laws sorted h i (suc j) k l le e f eq = elim (Bool-cases (i == suc j)) [
    | inl t ↦ same_at ks i (suc j) k l laws (ground arith) e f
    | inr other ↦
        let before : i ≤ j = ground arith in
        let (m, at_m) = get_elem?-some ks j (omega (arith, get_elem?-lt ks (suc j) l f)) in
        let (eq', eq'') =
          squeezed k.input m.input l.input (sorted i j k m e at_m before)
            (sorted j (suc j) m l at_m f (omega arith)) eq in
        laws.same_trans k.output m.output l.output
          (has_jump-Smooth ks laws sorted h i j k m before e at_m eq')
          (neighbours ks j m l h at_m f eq'')
  ]

  -- Steps beside other keys.
  abbrev pub Mixed : List (CurveKey Output) → Type 0
  Mixed ks = (0 < count_steps o ks) × (count_steps o ks < length ks)

  checks :
      (c : Curve Output) → c.check_discontinuity ≡ true → (resort o c).check_discontinuity ≡ true
  unfolding resort invalidate_cache
  checks c e = if-both {A = Curve Output} (λ r. r.check_discontinuity ≡ true) c.sorted e refl

  -- The tests of `updateCurveInfo_`.
  abbrev tests : ℤ → List (CurveKey Output) → Bool
  tests n ks =
      (ltb_ℤ (pos 0) n && not (eqb_ℤ n (pos (length ks)))) || (ltb 1 (length ks) && has_jump o ks)

  discontinuous-update_curve_info :
      (c : Curve Output)
      → c.check_discontinuity ≡ true
      → (update_curve_info o c).discontinuous
        ≡ tests (update_curve_info o c).num_step_keys (update_curve_info o c).keys
  unfolding update_curve_info
  discontinuous-update_curve_info c e = rw (checks c e) refl

  discontinuous-tests :
      (c : Curve Output)
      → c.check_discontinuity ≡ true
      → is_discontinuous o c
        ≡ tests (update_curve_info o c).num_step_keys (update_curve_info o c).keys
  unfolding is_discontinuous
  discontinuous-tests c e = discontinuous-update_curve_info c e

  long_enough : (ks : List (CurveKey Output)) → has_jump o ks ≡ true → ltb 1 (length ks) ≡ true
  unfolding has_jump
  long_enough [] e = cc
  long_enough (k ∷ []) e = cc
  long_enough (k ∷ l ∷ ls) e = ground arith

  tests-true :
      (n : ℕ) (ks : List (CurveKey Output))
      → n ≤ length ks
      → tests (pos n) ks ≡ true
      → ((0 < n) × (n < length ks)) ⊎ (has_jump o ks ≡ true)
  tests-true n ks le e =
      elim (Bool-cases (ltb_ℤ (pos 0) (pos n) && not (eqb_ℤ (pos n) (pos (length ks))))) [
        | inl t ↦ inl (ground arith, ground arith)
        | inr f ↦ inr (ground arith)
      ]

  tests-false :
      (n : ℕ) (ks : List (CurveKey Output))
      → tests (pos n) ks ≡ false
      → ((0 < n) × (n < length ks) → ⊥) × (has_jump o ks ≡ false)
  tests-false n ks e = (
    (λ mixed. ground (arith, mixed.0, mixed.1)),
    elim (Bool-cases (has_jump o ks)) [ inr f ↦ f | inl t ↦ ground (arith, long_enough ks t) ],
  )

-- Where the flag `sorted` tells the truth, the number of step keys that the curve remembers is right,
-- the continuity is due to be checked and the comparison of outputs is reflexive and transitive: if
-- `isDiscontinuous` gives true, the curve has step keys beside others or two keys at one input with
-- different outputs; if it gives false, the curve has neither, for any two keys, though only
-- neighbours are compared.
pub is_discontinuous-Jump :
    (o : Outputs) (c : Curve o.Output)
    → SameLaws o
    → FlagHolds o c
    → CountsSteps o c
    → c.check_discontinuity ≡ true
    → (is_discontinuous o c ≡ true
        → Mixed o (update_curve_info o c).keys ⊎ Jump o (update_curve_info o c).keys)
      × (is_discontinuous o c ≡ false
          → (Mixed o (update_curve_info o c).keys → ⊥) × Smooth o (update_curve_info o c).keys)
is_discontinuous-Jump o c laws h counted e =
    let c' = update_curve_info o c in
    let number = update_curve_info-CountsSteps o c counted in
    let same_tests = discontinuous-tests o c e ∙ ap (λ n. tests o n c'.keys) number in
    (
      (λ yes'.
          elim (tests-true o (count_steps o c'.keys) c'.keys (count_steps-le o c'.keys)
            (sym same_tests ∙ yes')) [
              | inl mixed ↦ inl mixed
              | inr jump ↦ inr (has_jump-Jump o c'.keys jump)
            ]),
      (λ no'.
          let (not_mixed, smooth) =
            tests-false o (count_steps o c'.keys) c'.keys (sym same_tests ∙ no') in
          (not_mixed, has_jump-Smooth o c'.keys laws (update_curve_info-IsSorted o c h).0 smooth)),
    )
