-- ===== src/Counter/Advance/Returns.antt =====
-- `advance` of o3d-webgl/counter.js returns, for counters that go on and on within their bounds.
use toolbox.Base.{
  ℕ, suc, ◌≤◌, ◌<◌, ◌≡◌, ◌↔◌, ◌==◌, refl, sym, Bool, true, false, ◌||◌, Option, none, some, List,
  [], if◌then◌else◌, Bool-cases, Option-cases, inl, inr, arith,
}
use toolbox.Base.Int.{
  ℤ, pos, ltb_ℤ, leb_ℤ, eqb_ℤ, ◌≤ℤ◌, ◌+ℤ◌, ◌-ℤ◌, ◌*ℤ◌, int_laws, nat_abs, pos-nat_abs, eq_of_parts,
}
use mathlib.Core.Path.{subst}
use toolbox.Counter.Advance.{
  count_value, Counter, CountMode, once, cycle, oscillate, continuous, other, Sweep, ahead, reached,
  sweep, settle, sweep_mode, once_at, cycle_loop, oscillate_loop, fire, gap, delta_of, advance,
  advance_up, advance_down, advance_free, advance_bound,
}
use toolbox.Counter.Advance.Cycle.{Short, Past, Outcome, cycle_loop-InLap}
use toolbox.Counter.Advance.Oscillate.{Between, oscillate_loop-Bounced}
use toolbox.Counter.Advance.Branches.{
  span, course, course_bounds, course_walk, advance-course, advance-up, advance-down,
}
use toolbox.Counter.Advance.Sweeps.{Gives}

abbrev pub is_loop : CountMode → Bool
is_loop continuous = false
is_loop once = false
is_loop cycle = true
is_loop oscillate = true
is_loop other = false

-- A count is between the start and the end, both included.
abbrev pub Inside : Counter → ℤ → Type 0
Inside c n =
    if leb_ℤ (pos 0) (c.end -ℤ c.start)
    then (n ≤ℤ c.end) × (c.start ≤ℤ n)
    else (c.end ≤ℤ n) × (n ≤ℤ c.start)

-- An amount of at most `reach` moves the counter by at most `fuel`, and in the modes CYCLE and
-- OSCILLATE the count is between the bounds, if they differ.
abbrev pub Fits : (reach fuel : ℕ) → Counter → Type 0
Fits reach fuel c =
    ((a : ℤ) → nat_abs a ≤ reach → nat_abs (a *ℤ c.multiplier) ≤ fuel)
    × (is_loop c.count_mode ≡ true → 0 < span c → Inside c c.count)

-- The same counter but for its count, direction and callbacks.
abbrev Alike : Counter → Counter → Type 0
Alike c c' =
    (c'.multiplier ≡ c.multiplier)
    × (c'.start ≡ c.start)
    × (c'.end ≡ c.end)
    × (c'.count_mode ≡ c.count_mode)

settle-Alike :
    (c : Counter) (P : Sweep → Type 0) (Q : ℤ → Type 0) (o : Option Sweep)
    → Outcome P o
    → ((t : Sweep) → P t → Q t.new_count)
    → Gives (λ c' _. Alike c c' × Q c'.count) (settle c o)
unfolding settle fire
settle-Alike c P Q none h f = h
settle-Alike c P Q (some t) h f = ((refl, refl, refl, refl), f t h)

-- A sweep along a course, with start and end apart.
swept-Between :
    (c : Counter) (fuel : ℕ) (m : CountMode) (up : Bool) (bound restart : ℤ) (period : ℕ) (walk : ℤ)
    → bound ≡ ahead up restart (pos period)
    → 0 < period
    → pos 0 ≤ℤ walk
    → walk ≤ℤ pos fuel
    → (is_loop m ≡ true → Between up bound restart c.count)
    → Gives
        (λ c' _. Alike c c' × (is_loop m ≡ true → Between up bound restart c'.count))
        (settle c (
          sweep_mode
            (suc (suc fuel))
            m
            false
            up
            bound
            restart
            (pos period)
            walk
            (sweep c c.count (ahead up c.count walk))))
unfolding sweep_mode
swept-Between c fuel once up bound restart period walk b p ge le inside =
    settle-Alike c (λ t. Unit) _ (some (once_at up bound (sweep c c.count (ahead up c.count walk))))
      tt (λ t u e. cc)
swept-Between c fuel continuous up bound restart period walk b p ge le inside =
    settle-Alike c (λ t. Unit) _ (some (sweep c c.count (ahead up c.count walk))) tt (λ t u e. cc)
swept-Between c fuel other up bound restart period walk b p ge le inside =
    settle-Alike c (λ t. Unit) _ (some (sweep c c.count (ahead up c.count walk))) tt (λ t u e. cc)
swept-Between c fuel cycle up bound restart period walk b p ge le inside =
    let (past, short) = lap_start up bound restart c.count walk fuel ge le (inside refl) in
    settle-Alike c _ _ _ (cycle_loop-InLap (suc fuel) up bound restart period _ b p past short)
      (λ t (s, q, l) e. lap_end up bound restart t.new_count s q)
  where
    lap_start :
        (up : Bool) (bound restart n walk : ℤ) (fuel : ℕ)
        → pos 0 ≤ℤ walk
        → walk ≤ℤ pos fuel
        → Between up bound restart n
        → Past up (ahead up n walk) restart
          × Short up (ahead up n walk) (ahead up bound (pos (suc fuel)))
    lap_start true bound restart n walk fuel ge le (a, b) = (omega int_laws, omega int_laws)
    lap_start false bound restart n walk fuel ge le (a, b) = (omega int_laws, omega int_laws)

    lap_end :
        (up : Bool) (bound restart n : ℤ)
        → Short up n bound
        → Past up n restart
        → Between up bound restart n
    lap_end true bound restart n s q = (omega arith, q)
    lap_end false bound restart n s q = (omega arith, q)
swept-Between c fuel oscillate up bound restart period walk b p ge le inside =
    settle-Alike c _ _ _
      (oscillate_loop-Bounced (suc fuel) up bound restart walk period _ b p (inside refl) ge
        (omega arith) (rest up))
      (λ t w e. w.0)
  where
    rest : (up : Bool) → ltb_ℤ (pos 0) walk ≡ false → ahead up c.count walk ≡ c.count
    rest true out = let least : walk ≤ℤ pos 0 = ground arith in eq_of_parts _ _ (omega int_laws)
    rest false out = let least : walk ≤ℤ pos 0 = ground arith in eq_of_parts _ _ (omega int_laws)

-- With start and end equal every mode stops at once.
swept-stop :
    (c : Counter) (fuel : ℕ) (m : CountMode) (up : Bool) (bound restart period walk : ℤ) (t : Sweep)
    → Gives
        (λ c' _. Alike c c')
        (settle c (sweep_mode (suc fuel) m true up bound restart period walk t))
unfolding sweep_mode settle fire cycle_loop oscillate_loop
swept-stop c fuel once up bound restart period walk t = (refl, refl, refl, refl)
swept-stop c fuel continuous up bound restart period walk t = (refl, refl, refl, refl)
swept-stop c fuel other up bound restart period walk t = (refl, refl, refl, refl)
swept-stop c fuel cycle up bound restart period walk t =
    elim (Bool-cases (reached up t.new_count bound)) [
      | inl r ↦ rw r (refl, refl, refl, refl)
      | inr r ↦ rw r (refl, refl, refl, refl)
    ]
swept-stop c fuel oscillate up bound restart period walk t =
    elim (Bool-cases (ltb_ℤ (pos 0) walk)) [
      | inr r ↦ rw r (refl, refl, refl, refl)
      | inl r ↦ rw r (elim (Bool-cases (reached up (ahead up t.old_count walk) bound)) [
        | inr r ↦ rw r (refl, refl, refl, refl)
        | inl r ↦
            let over : (leb_ℤ (walk -ℤ gap up t.old_count bound) (pos 0) || true) ≡ true =
              ground arith in
            rw (r, over) (refl, refl, refl, refl)
      ])
    ]

abs-neg : (a : ℤ) → nat_abs (pos 0 -ℤ a) ≡ nat_abs a
unfolding ◌-ℤ◌
abs-neg a = ground arith

module _ (reach fuel : ℕ) (amount : ℤ) (c : Counter) (free : c.input ≡ none)
    (near : nat_abs amount ≤ reach) (fits : Fits reach fuel c) where
  abbrev delta : ℤ
  delta = delta_of amount c

  delta-small : nat_abs delta ≤ fuel
  unfolding delta_of
  delta-small = elim (Bool-cases c.forward) [
    | inl t ↦ rw t (fits.0 amount near)
    | inr t ↦ rw t (fits.0 (pos 0 -ℤ amount) (omega (arith, abs-neg amount)))
  ]

  -- The counter after a sweep that stays between its bounds.
  kept-Fits :
      (o : Option (Counter × List ℕ))
      → Gives
          (λ c' _. Alike c c' × (is_loop c.count_mode ≡ true → 0 < span c → Inside c c'.count))
          o
      → Gives (λ c' _. Fits reach fuel c') o
  kept-Fits none g = g
  kept-Fits (some (c', queue)) ((m, s, e, mode), inside) =
      (rw m (fits.0), λ loop wide. rw (s, e) (inside (rw mode at loop) (rw (s, e) at wide)))

  -- With start and end equal nothing is asked of the count.
  stopped-Fits :
      span c ≡ 0
      → (o : Option (Counter × List ℕ)) → Gives (λ c' _. Alike c c') o
      → Gives (λ c' _. Fits reach fuel c') o
  stopped-Fits narrow none g = g
  stopped-Fits narrow (some (c', queue)) (m, s, e, mode) = (
    rw m (fits.0),
    λ loop wide. let none_left : 0 < span c = rw (s, e) at wide in absurd (omega arith),
  )

  -- A sweep along a course whose bounds are the start and the end of the counter.
  wide-Fits :
      (up : Bool) (bound restart walk : ℤ)
      → 0 < span c
      → bound ≡ ahead up restart (pos (span c))
      → pos 0 ≤ℤ walk
      → walk ≤ℤ pos fuel
      → ((n : ℤ) → Inside c n ↔ Between up bound restart n)
      → Gives
          (λ c' _. Fits reach fuel c')
          (settle c (
            sweep_mode
              (suc (suc fuel))
              c.count_mode
              false
              up
              bound
              restart
              (pos (span c))
              walk
              (sweep c c.count (ahead up c.count walk))))
  wide-Fits up bound restart walk wide b ge le ends = kept-Fits _ (
      moved _ (
        swept-Between c fuel c.count_mode up bound restart (span c) walk b wide ge le
          (λ loop. (ends c.count).0 (fits.1 loop wide))))
    where
      moved :
          (o : Option (Counter × List ℕ))
          → Gives
              (λ c' _.
                Alike c c' × (is_loop c.count_mode ≡ true → Between up bound restart c'.count))
              o
          → Gives
              (λ c' _. Alike c c' × (is_loop c.count_mode ≡ true → 0 < span c → Inside c c'.count))
              o
      moved none g = g
      moved (some (c', queue)) (alike, inside) = (alike, λ loop w. (ends c'.count).1 (inside loop))

  course-Inside :
      (n : ℤ)
      → Inside c n ↔ Between (course delta c).up (course delta c).bound (course delta c).restart n
  course-Inside n = elim (Bool-cases (leb_ℤ (pos 0) (c.end -ℤ c.start))) [
    | inl p ↦ rw p (elim (Bool-cases (leb_ℤ (pos 0) delta)) [
      | inl d ↦ rw d (λ x. x, λ x. x)
      | inr d ↦ rw d (λ x. (x.1, x.0), λ x. (x.1, x.0))
    ])
    | inr p ↦ rw p (elim (Bool-cases (ltb_ℤ (pos 0) delta)) [
      | inl d ↦ rw d (λ x. x, λ x. x)
      | inr d ↦ rw d (λ x. (x.1, x.0), λ x. (x.1, x.0))
    ])
  ]

  course-small : (course delta c).walk ≤ℤ pos fuel
  course-small = elim (Bool-cases (leb_ℤ (pos 0) (c.end -ℤ c.start))) [
    | inl p ↦ rw p (elim (Bool-cases (leb_ℤ (pos 0) delta)) [
      | inl d ↦ rw d (omega (arith, delta-small))
      | inr d ↦ rw d (omega (int_laws, delta-small))
    ])
    | inr p ↦ rw p (elim (Bool-cases (ltb_ℤ (pos 0) delta)) [
      | inl d ↦ rw d (omega (arith, delta-small))
      | inr d ↦ rw d (omega (int_laws, delta-small))
    ])
  ]

  apart-Fits :
      0 < span c
      → eqb_ℤ delta (pos 0) ≡ false
      → Gives (λ c' _. Fits reach fuel c') (advance (suc (suc fuel)) amount c)
  apart-Fits wide moves = rw (advance-course (suc (suc fuel)) amount c free wide moves) (
      wide-Fits (course delta c).up (course delta c).bound (course delta c).restart
        (course delta c).walk wide (course_bounds delta c) (course_walk delta c) course-small
        course-Inside)

  advance-still :
      leb_ℤ (pos 0) (c.end -ℤ c.start) ≡ false
      → ltb_ℤ (pos 0) delta ≡ false
      → ltb_ℤ delta (pos 0) ≡ false
      → advance (suc (suc fuel)) amount c ≡ some (record c { old_count = c.count }, [])
  unfolding advance advance_free count_value
  advance-still p u d = rw (free, p, u, d) refl

  -- A delta of 0.
  still-Fits :
      0 < span c
      → eqb_ℤ delta (pos 0) ≡ true
      → Gives (λ c' _. Fits reach fuel c') (advance (suc (suc fuel)) amount c)
  unfolding advance_up
  still-Fits wide still = elim (Bool-cases (leb_ℤ (pos 0) (c.end -ℤ c.start))) [
    | inl p ↦
        let up : leb_ℤ (pos 0) delta ≡ true = ground arith in
        let go_on : eqb_ℤ (c.end -ℤ c.start) (pos 0) ≡ false = ground arith in
        let whole = pos-nat_abs (c.end -ℤ c.start) (ground arith) in
        let ends : c.end ≡ ahead true c.start (pos (span c)) =
          subst (λ x. c.end ≡ c.start +ℤ x) whole (eq_of_parts _ _ (omega int_laws)) in
        let course_up =
          wide-Fits true c.end c.start delta wide ends (ground arith) (omega (arith, delta-small))
            (λ n. rw p (λ x. x, λ x. x)) in
        rw (advance-up (suc (suc fuel)) amount c free p up, go_on)
          (subst
            (λ x.
              Gives (λ c' _. Fits reach fuel c')
                (settle c (
                  sweep_mode (suc (suc fuel)) c.count_mode false true c.end c.start x delta
                    (sweep c c.count (c.count +ℤ delta)))))
            (sym whole) course_up)
    | inr p ↦ rw (advance-still p (ground arith) (ground arith)) fits
  ]

  narrow-Fits : span c ≡ 0 → Gives (λ c' _. Fits reach fuel c') (advance (suc (suc fuel)) amount c)
  unfolding advance_up advance_down
  narrow-Fits narrow =
      let p : leb_ℤ (pos 0) (c.end -ℤ c.start) ≡ true = ground arith in
      let stop : eqb_ℤ (c.end -ℤ c.start) (pos 0) ≡ true = ground arith in
      elim (Bool-cases (leb_ℤ (pos 0) delta)) [
        | inl d ↦
            rw (advance-up (suc (suc fuel)) amount c free p d, stop)
              (stopped-Fits narrow _ (
                swept-stop c (suc fuel) c.count_mode true c.end c.start (c.end -ℤ c.start) delta
                  (sweep c c.count (c.count +ℤ delta))))
        | inr d ↦
            rw (advance-down (suc (suc fuel)) amount c free p d, stop)
              (stopped-Fits narrow _ (
                swept-stop c (suc fuel) c.count_mode false c.start c.end (c.end -ℤ c.start)
                  (pos 0 -ℤ delta) (sweep c c.count (c.count +ℤ delta))))
      ]

  free-Fits : Gives (λ c' _. Fits reach fuel c') (advance (suc (suc fuel)) amount c)
  free-Fits = elim (Bool-cases (span c == 0)) [
    | inl t ↦ narrow-Fits (ground arith)
    | inr t ↦
        let wide : 0 < span c = ground arith in
        elim (Bool-cases (eqb_ℤ delta (pos 0))) [
          | inl still ↦ still-Fits wide still
          | inr moves ↦ apart-Fits wide moves
        ]
  ]

bound_Fits :
    (reach fuel : ℕ) (amount v : ℤ) (c : Counter)
    → Fits reach fuel c
    → c.input ≡ some v
    → Gives (λ c' _. Fits reach fuel c') (advance (suc (suc fuel)) amount c)
unfolding advance advance_bound
bound_Fits reach fuel amount v c fits e = rw e fits

-- Where an amount moves a counter by at most `fuel`, and its count is between its bounds in the modes
-- that go on and on, `advance` returns with two rounds more, and the counter is so again.
pub advance-Fits :
    (reach fuel : ℕ) (amount : ℤ) (c : Counter)
    → nat_abs amount ≤ reach
    → Fits reach fuel c
    → Gives (λ c' _. Fits reach fuel c') (advance (suc (suc fuel)) amount c)
advance-Fits reach fuel amount c near fits = elim (Option-cases c.input) [
  | inl free ↦ free-Fits reach fuel amount c free near fits
  | inr (v, bound) ↦ bound_Fits reach fuel amount v c fits bound
]
