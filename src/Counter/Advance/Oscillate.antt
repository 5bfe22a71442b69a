-- ===== src/Counter/Advance/Oscillate.antt =====
-- The branch OSCILLATE of `advance` of o3d-webgl/counter.js.
use toolbox.Base.{
  ℕ, zero, suc, ◌*◌, ◌<◌, ◌≡◌, refl, ap, ◌⊎◌, inl, inr, Bool, true, false, not, arith, Bool-cases,
}
use mathlib.Core.Bool.{not-not}
use toolbox.Base.Int.{
  ℤ, pos, ltb_ℤ, leb_ℤ, ◌≤ℤ◌, ◌<ℤ◌, ◌+ℤ◌, ◌-ℤ◌, int_laws, eq_of_parts, le_of_ltb_ℤ, lt_of_ltb_ℤ,
  pos_part, neg_part,
}
use toolbox.Counter.Advance.{Sweep, oscillate_loop, reached, ahead, gap, fire}
use toolbox.Counter.Advance.Cycle.{Past, Outcome, Outcome-mono}

-- From `n` the count goes `d` ahead, towards `near`, turning at both bounds. `laps` are the whole
-- turns, of two periods each; the direction says on which half the count ends.
abbrev pub Travelled : Bool → (near : ℤ) (period : ℕ) (n d : ℤ) (dir : Bool) → ℤ → Bool → Type 0
Travelled up near period n d dir new dir' =
    (laps : ℕ) × (((dir' ≡ dir) × (ahead up n d ≡ ahead up new (pos (2 * laps * period))))
      ⊎ ((dir' ≡ not dir)
          × (ahead up n d +ℤ new ≡ ahead up (near +ℤ near) (pos (2 * laps * period)))))

abbrev pub Between : Bool → (near far : ℤ) → ℤ → Type 0
Between up near far n = Past (not up) n near × Past up n far

abbrev pub Bounced : Bool → (near far : ℤ) (period : ℕ) (n d : ℤ) (dir : Bool) → ℤ → Bool → Type 0
Bounced up near far period n d dir new dir' =
    Between up near far new × Travelled up near period n d dir new dir'

-- No more to go.
Bounced-rest :
    (up : Bool) (near far : ℤ) (period : ℕ) (n d new : ℤ) (dir : Bool)
    → Between up near far n
    → ltb_ℤ (pos 0) d ≡ false
    → pos 0 ≤ℤ d
    → new ≡ n
    → Bounced up near far period n d dir new dir
Bounced-rest true near far period n d new dir (a, b) out ge e =
    rw e ((a, b), (0, inl (refl, eq_of_parts _ _ (omega (int_laws, le_of_ltb_ℤ (pos 0) d out)))))
Bounced-rest false near far period n d new dir (a, b) out ge e =
    rw e ((a, b), (0, inl (refl, eq_of_parts _ _ (omega (int_laws, le_of_ltb_ℤ (pos 0) d out)))))

-- The bound is not reached.
Bounced-short :
    (up : Bool) (near far : ℤ) (period : ℕ) (n d : ℤ) (dir : Bool)
    → Between up near far n
    → pos 0 ≤ℤ d
    → reached up (ahead up n d) near ≡ false
    → Bounced up near far period n d dir (ahead up n d) dir
Bounced-short true near far period n d dir (a, b) ge out =
    let lt : (n +ℤ d) <ℤ near = ground arith in
    ((omega int_laws, omega int_laws), (0, inl (refl, eq_of_parts _ _ (omega int_laws))))
Bounced-short false near far period n d dir (a, b) ge out =
    let lt : near <ℤ (n -ℤ d) = ground arith in
    ((omega int_laws, omega int_laws), (0, inl (refl, eq_of_parts _ _ (omega int_laws))))

-- The count stops at the bound, where it turns.
Bounced-turned :
    (up : Bool) (near far : ℤ) (period : ℕ) (n d : ℤ) (dir : Bool)
    → near ≡ ahead up far (pos period)
    → reached up (ahead up n d) near ≡ true
    → leb_ℤ (d -ℤ gap up n near) (pos 0) ≡ true
    → Bounced up near far period n d dir near (not dir)
Bounced-turned true near far period n d dir e r l =
    let le : near ≤ℤ (n +ℤ d) = ground arith in
    let none_left : (d -ℤ (near -ℤ n)) ≤ℤ pos 0 = ground arith in
    (
      (omega int_laws, omega (int_laws, ap pos_part e, ap neg_part e)),
      (0, inr (refl, eq_of_parts _ _ (omega int_laws))),
    )
Bounced-turned false near far period n d dir e r l =
    let le : (n -ℤ d) ≤ℤ near = ground arith in
    let none_left : (d -ℤ (n -ℤ near)) ≤ℤ pos 0 = ground arith in
    (
      (omega int_laws, omega (int_laws, ap pos_part e, ap neg_part e)),
      (0, inr (refl, eq_of_parts _ _ (omega int_laws))),
    )

-- The count turns and stops on its way back.
Bounced-back :
    (up : Bool) (near far : ℤ) (period : ℕ) (n d left : ℤ) (dir : Bool)
    → left ≡ d -ℤ gap up n near
    → leb_ℤ left (pos 0) ≡ false
    → reached (not up) (ahead (not up) near left) far ≡ false
    → Bounced up near far period n d dir (ahead (not up) near left) (not dir)
Bounced-back true near far period n d left dir e l out =
    let some_left : pos 0 <ℤ left = ground arith in
    let lt : far <ℤ (near -ℤ left) = ground arith in
    (
      (omega int_laws, omega int_laws),
      (0, inr (refl, eq_of_parts _ _ (omega (int_laws, ap pos_part e, ap neg_part e)))),
    )
Bounced-back false near far period n d left dir e l out =
    let some_left : pos 0 <ℤ left = ground arith in
    let lt : (near +ℤ left) <ℤ far = ground arith in
    (
      (omega int_laws, omega int_laws),
      (0, inr (refl, eq_of_parts _ _ (omega (int_laws, ap pos_part e, ap neg_part e)))),
    )

-- A whole turn: from `far` on with what is left.
Bounced-again :
    (up : Bool) (near far : ℤ) (period : ℕ) (n d left : ℤ) (dir : Bool) (new : ℤ) (dir' : Bool)
    → near ≡ ahead up far (pos period)
    → left ≡ d -ℤ gap up n near
    → Bounced up near far period far (left -ℤ gap (not up) near far) dir new dir'
    → Bounced up near far period n d dir new dir'
Bounced-again true near far period n d left dir new dir' e l (b, (laps, inl (same, w))) = (
  b,
  (
    suc laps,
    inl (
      same,
      eq_of_parts _ _ (
          omega (
            int_laws,
            ap pos_part e,
            ap neg_part e,
            ap pos_part l,
            ap neg_part l,
            ap pos_part w,
            ap neg_part w,
          )),
    ),
  ),
)
Bounced-again true near far period n d left dir new dir' e l (b, (laps, inr (other, w))) = (
  b,
  (
    suc laps,
    inr (
      other,
      eq_of_parts _ _ (
          omega (
            int_laws,
            ap pos_part e,
            ap neg_part e,
            ap pos_part l,
            ap neg_part l,
            ap pos_part w,
            ap neg_part w,
          )),
    ),
  ),
)
Bounced-again false near far period n d left dir new dir' e l (b, (laps, inl (same, w))) = (
  b,
  (
    suc laps,
    inl (
      same,
      eq_of_parts _ _ (
          omega (
            int_laws,
            ap pos_part e,
            ap neg_part e,
            ap pos_part l,
            ap neg_part l,
            ap pos_part w,
            ap neg_part w,
          )),
    ),
  ),
)
Bounced-again false near far period n d left dir new dir' e l (b, (laps, inr (other, w))) = (
  b,
  (
    suc laps,
    inr (
      other,
      eq_of_parts _ _ (
          omega (
            int_laws,
            ap pos_part e,
            ap neg_part e,
            ap pos_part l,
            ap neg_part l,
            ap pos_part w,
            ap neg_part w,
          )),
    ),
  ),
)

-- What is left after a whole turn: not below 0, and less than before.
turn_left :
    (up : Bool) (near far : ℤ) (period fuel : ℕ) (n d left : ℤ)
    → near ≡ ahead up far (pos period)
    → 0 < period
    → Between up near far n
    → left ≡ d -ℤ gap up n near
    → reached (not up) (ahead (not up) near left) far ≡ true
    → d ≤ℤ pos (suc fuel)
    → (pos 0 ≤ℤ left -ℤ gap (not up) near far) × (left -ℤ gap (not up) near far ≤ℤ pos fuel)
turn_left true near far period fuel n d left e p (a, b) l r f =
    let le : (near -ℤ left) ≤ℤ far = ground arith in
    (omega int_laws, omega (int_laws, ap pos_part e, ap neg_part e, ap pos_part l, ap neg_part l))
turn_left false near far period fuel n d left e p (a, b) l r f =
    let le : far ≤ℤ (near +ℤ left) = ground arith in
    (omega int_laws, omega (int_laws, ap pos_part e, ap neg_part e, ap pos_part l, ap neg_part l))

far-Between :
    (up : Bool) (near far : ℤ) (period : ℕ)
    → near ≡ ahead up far (pos period)
    → Between up near far far
far-Between true near far period e =
    (omega (int_laws, ap pos_part e, ap neg_part e), omega int_laws)
far-Between false near far period e =
    (omega (int_laws, ap pos_part e, ap neg_part e), omega int_laws)

-- The loop OSCILLATE ends; the count is between the bounds, where the travel to and fro puts it.
pub oscillate_loop-Bounced :
    (fuel : ℕ) (up : Bool) (near far d : ℤ) (period : ℕ) (t : Sweep)
    → near ≡ ahead up far (pos period)
    → 0 < period
    → Between up near far t.old_count
    → pos 0 ≤ℤ d
    → d ≤ℤ pos fuel
    → (ltb_ℤ (pos 0) d ≡ false → t.new_count ≡ t.old_count)
    → Outcome
        (λ t'. Bounced up near far period t.old_count d t.direction t'.new_count t'.direction)
        (oscillate_loop (suc fuel) false up near far d t)
unfolding oscillate_loop fire
oscillate_loop-Bounced zero up near far d period t e p b ge f same =
    elim (Bool-cases (ltb_ℤ (pos 0) d)) [
      | inl more ↦ absurd (omega (arith, lt_of_ltb_ℤ (pos 0) d more))
      | inr out ↦ rw out (
          Bounced-rest up near far period t.old_count d t.new_count t.direction b out ge (same out))
    ]
oscillate_loop-Bounced (suc fuel) up near far d period t e p b ge f same =
    elim (Bool-cases (ltb_ℤ (pos 0) d)) [
      | inr out ↦ rw out (
          Bounced-rest up near far period t.old_count d t.new_count t.direction b out ge (same out))
      | inl more ↦ rw more (elim (Bool-cases (reached up (ahead up t.old_count d) near)) [
        | inr out ↦ rw out (Bounced-short up near far period t.old_count d t.direction b ge out)
        | inl hit ↦ rw hit (elim (Bool-cases (leb_ℤ (d -ℤ gap up t.old_count near) (pos 0))) [
          | inl over ↦
              rw over (Bounced-turned up near far period t.old_count d t.direction e hit over)
          | inr left ↦
              rw left
                (elim (Bool-cases
                  (reached (not up) (ahead (not up) near (d -ℤ gap up t.old_count near)) far)) [
                    | inr out ↦
                        rw out (
                          Bounced-back up near far period t.old_count d _ t.direction refl left out)
                    | inl back ↦
                        let (ge', f') =
                          turn_left up near far period fuel t.old_count d _ e p b refl back f in
                        rw back (
                          Outcome-mono
                            (λ x.
                              Bounced up near far period far
                                (d -ℤ gap up t.old_count near -ℤ gap (not up) near far)
                                (not (not t.direction)) x.new_count x.direction)
                            _ _
                            (λ t' w.
                              Bounced-again up near far period t.old_count d _ t.direction
                                t'.new_count t'.direction e refl (rw not-not at w))
                            (oscillate_loop-Bounced fuel up near far _ period _ e p
                              (far-Between up near far period e) ge' f' (λ z. refl)))
                  ])
        ])
      ])
    ]
