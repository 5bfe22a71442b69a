-- ===== src/Counter/Advance/Branches.antt =====
-- Which branch of `advance` is taken, by the signs of the period and of delta.
use toolbox.Base.{
  ℕ, ◌<◌, ◌≡◌, refl, Bool, true, false, none, arith, if◌then◌else◌, Bool-cases, inl, inr, ◌∙◌,
}
use toolbox.Base.Int.{
  ℤ, pos, ltb_ℤ, leb_ℤ, eqb_ℤ, ◌≤ℤ◌, ◌+ℤ◌, ◌-ℤ◌, int_laws, eq_of_parts, -ℤ_parts, nat_abs,
  pos-nat_abs, neg-nat_abs,
}
use toolbox.Counter.Advance.{
  Counter, advance, advance_free, advance_up, advance_down, advance_falling, advance_rising,
  delta_of, count_value, ahead, sweep, settle, sweep_mode,
}

module _ (fuel : ℕ) (amount : ℤ) (c : Counter) where
  pub advance-up :
      c.input ≡ none
      → leb_ℤ (pos 0) (c.end -ℤ c.start) ≡ true
      → leb_ℤ (pos 0) (delta_of amount c) ≡ true
      → advance fuel amount c ≡ advance_up fuel c.count (delta_of amount c) (c.end -ℤ c.start) c
  unfolding advance advance_free count_value
  advance-up free p d = ground arith

  pub advance-down :
      c.input ≡ none
      → leb_ℤ (pos 0) (c.end -ℤ c.start) ≡ true
      → leb_ℤ (pos 0) (delta_of amount c) ≡ false
      → advance fuel amount c ≡ advance_down fuel c.count (delta_of amount c) (c.end -ℤ c.start) c
  unfolding advance advance_free count_value
  advance-down free p d = ground arith

  pub advance-falling :
      c.input ≡ none
      → leb_ℤ (pos 0) (c.end -ℤ c.start) ≡ false
      → ltb_ℤ (pos 0) (delta_of amount c) ≡ true
      → advance fuel amount c
        ≡ advance_falling fuel c.count (delta_of amount c) (pos 0 -ℤ (c.end -ℤ c.start)) c
  unfolding advance advance_free count_value
  advance-falling free p d = ground arith

  pub advance-rising :
      c.input ≡ none
      → leb_ℤ (pos 0) (c.end -ℤ c.start) ≡ false
      → ltb_ℤ (pos 0) (delta_of amount c) ≡ false
      → ltb_ℤ (delta_of amount c) (pos 0) ≡ true
      → advance fuel amount c
        ≡ advance_rising fuel c.count (delta_of amount c) (pos 0 -ℤ (c.end -ℤ c.start)) c
  unfolding advance advance_free count_value
  advance-rising free p d e = ground arith

-- Which way the count goes, the bound that it goes to, the other bound, and how far it goes.
pub record Course : Type 0 where
  pub up : Bool
  pub bound : ℤ
  pub restart : ℤ
  pub walk : ℤ

abbrev pub course : ℤ → Counter → Course
course delta c =
    if leb_ℤ (pos 0) (c.end -ℤ c.start)
    then (if leb_ℤ (pos 0) delta
        then record { up = true; bound = c.end; restart = c.start; walk = delta }
        else record { up = false; bound = c.start; restart = c.end; walk = pos 0 -ℤ delta })
    else if ltb_ℤ (pos 0) delta
    then record { up = false; bound = c.end; restart = c.start; walk = delta }
    else record { up = true; bound = c.start; restart = c.end; walk = pos 0 -ℤ delta }

-- The distance of start and end.
abbrev pub span : Counter → ℕ
span c = nat_abs (c.end -ℤ c.start)

module _ (delta : ℤ) (c : Counter) where
  pub course_bounds :
      (course delta c).bound ≡ ahead (course delta c).up (course delta c).restart (pos (span c))
  course_bounds = elim (Bool-cases (leb_ℤ (pos 0) (c.end -ℤ c.start))) [
    | inl p ↦
        rw (p, ← pos-nat_abs (c.end -ℤ c.start) (ground arith))
          (elim (Bool-cases (leb_ℤ (pos 0) delta)) [
            | inl d ↦ rw d (eq_of_parts _ _ (omega int_laws))
            | inr d ↦ rw d (eq_of_parts _ _ (omega int_laws))
          ])
    | inr p ↦
        rw (p, ← neg-nat_abs (c.end -ℤ c.start) (ground arith))
          (elim (Bool-cases (ltb_ℤ (pos 0) delta)) [
            | inl d ↦ rw d (eq_of_parts _ _ (omega int_laws))
            | inr d ↦ rw d (eq_of_parts _ _ (omega int_laws))
          ])
  ]

  pub course_walk : pos 0 ≤ℤ (course delta c).walk
  course_walk = elim (Bool-cases (leb_ℤ (pos 0) (c.end -ℤ c.start))) [
    | inl p ↦ rw p (elim (Bool-cases (leb_ℤ (pos 0) delta)) [
      | inl d ↦ rw d (ground arith)
      | inr d ↦ rw d (ground (arith, -ℤ_parts (pos 0) delta))
    ])
    | inr p ↦ rw p (elim (Bool-cases (ltb_ℤ (pos 0) delta)) [
      | inl d ↦ rw d (ground arith)
      | inr d ↦ rw d (ground (arith, -ℤ_parts (pos 0) delta))
    ])
  ]

-- Where start and end differ and delta is not 0, `advance` is the sweep along its course.
pub advance-course :
    (fuel : ℕ) (amount : ℤ) (c : Counter)
    → c.input ≡ none
    → 0 < span c
    → eqb_ℤ (delta_of amount c) (pos 0) ≡ false
    → advance fuel amount c
      ≡ settle c (
          sweep_mode fuel c.count_mode false
            (course (delta_of amount c) c).up
            (course (delta_of amount c) c).bound
            (course (delta_of amount c) c).restart
            (pos (span c))
            (course (delta_of amount c) c).walk
            (sweep c c.count (
              ahead (course (delta_of amount c) c).up c.count (course (delta_of amount c) c).walk)))
unfolding advance_up advance_down advance_falling advance_rising
advance-course fuel amount c free s nz = elim (Bool-cases (leb_ℤ (pos 0) (c.end -ℤ c.start))) [
  | inl p ↦
      let e = pos-nat_abs (c.end -ℤ c.start) (ground arith) in
      let stop : eqb_ℤ (c.end -ℤ c.start) (pos 0) ≡ false = ground arith in
      elim (Bool-cases (leb_ℤ (pos 0) delta)) [
        | inl d ↦ rw (p, d, ← e) (advance-up fuel amount c free p d ∙ (rw stop refl))
        | inr d ↦ rw (p, d, ← e) (advance-down fuel amount c free p d ∙ (rw (stop, flip_add) refl))
      ]
  | inr p ↦
      let e = neg-nat_abs (c.end -ℤ c.start) (ground arith) in
      elim (Bool-cases (ltb_ℤ (pos 0) delta)) [
        | inl d ↦ rw (p, d, ← e) (advance-falling fuel amount c free p d)
        | inr d ↦
            rw (p, d, ← e)
              (advance-rising fuel amount c free p d (ground arith) ∙ (rw flip_sub refl))
      ]
]
  where
    delta : ℤ
    delta = delta_of amount c

    flip_add : c.count +ℤ delta ≡ c.count -ℤ (pos 0 -ℤ delta)
    flip_add = eq_of_parts _ _ (omega int_laws)

    flip_sub : c.count -ℤ delta ≡ c.count +ℤ (pos 0 -ℤ delta)
    flip_sub = eq_of_parts _ _ (omega int_laws)
