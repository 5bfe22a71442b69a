-- ===== src/Counter/Advance/Sweeps.antt =====
-- The sweep of `advance` in each of the modes of a counter, along a course given by its parts.
use toolbox.Base.{
  ℕ, zero, suc, ◌*◌, ◌<◌, ◌≡◌, refl, Bool, true, false, not, ◌||◌, Option, none, some, List,
  if◌then◌else◌, Bool-cases, inl, inr, ◌∙◌,
}
use toolbox.Base.Int.{ℤ, pos, ltb_ℤ, leb_ℤ, ◌≤ℤ◌, le_of_ltb_ℤ, ◌-ℤ◌, int_laws, eq_of_parts}
use toolbox.Counter.Advance.{
  gap, cycle_loop, oscillate_loop, Counter, CountMode, once, cycle, oscillate, Sweep, ahead,
  reached, sweep, settle, sweep_mode, once_at, fire,
}
use toolbox.Counter.Advance.Cycle.{Short, Past, Outcome, cycle_loop-InLap}
use toolbox.Counter.Advance.Oscillate.{Between, Bounced, oscillate_loop-Bounced}

-- `advance` gives a result, and it is as stated.
abbrev pub Gives : (Counter → List ℕ → Type 0) → Option (Counter × List ℕ) → Type 0
Gives P none = ⊥
Gives P (some (c, queue)) = P c queue

-- The outcomes of the modes, for a counter that goes `walk` ahead from its count.
abbrev pub Stopped : Counter → Bool → (bound walk : ℤ) → Counter → Type 0
Stopped c up bound walk c' =
    (c'.forward ≡ c.forward)
    × (if reached up (ahead up c.count walk) bound
        then (c'.count ≡ bound) × (c'.running ≡ false)
        else (c'.count ≡ ahead up c.count walk) × (c'.running ≡ c.running))

abbrev pub Cycled : Counter → Bool → (bound restart : ℤ) (period : ℕ) (walk : ℤ) → Counter → Type 0
Cycled c up bound restart period walk c' =
    (c'.forward ≡ c.forward)
    × (c'.running ≡ c.running)
    × Short up c'.count bound
    × Past up c'.count restart
    × ((laps : ℕ) × (ahead up c.count walk ≡ ahead up c'.count (pos (laps * period))))

abbrev pub Oscillated : Counter → Bool → (near far : ℤ) (period : ℕ) (walk : ℤ) → Counter → Type 0
Oscillated c up near far period walk c' =
    (c'.running ≡ c.running) × Bounced up near far period c.count walk c.forward c'.count c'.forward

-- What holds of a result, if there is one.
abbrev Partly : (Sweep → Type 0) → Option Sweep → Type 0
Partly P none = Unit
Partly P (some t) = P t

abbrev Kept : Sweep → Sweep → Type 0
Kept t t' = (t'.direction ≡ t.direction) × (t'.running ≡ t.running)

cycle_loop-Kept :
    (fuel : ℕ) (stop up : Bool) (bound restart period : ℤ) (t : Sweep)
    → Partly (Kept t) (cycle_loop fuel stop up bound restart period t)
unfolding cycle_loop fire
cycle_loop-Kept zero stop up bound restart period t = tt
cycle_loop-Kept (suc fuel) stop up bound restart period t =
    let rest =
      cycle_loop-Kept fuel stop up bound restart period (record (fire t.old_count bound t) {
        old_count = restart;
        new_count = ahead (not up) t.new_count period;
      }) in
    elim (Bool-cases (reached up t.new_count bound)) [
      | inl r ↦
          rw r (elim (Bool-cases stop) [ inl s ↦ rw s (refl, refl) | inr s ↦ rw s (rw s at rest) ])
      | inr r ↦ rw r (refl, refl)
    ]

oscillate_loop-running :
    (fuel : ℕ) (stop up : Bool) (near far d : ℤ) (t : Sweep)
    → Partly (λ t'. t'.running ≡ t.running) (oscillate_loop fuel stop up near far d t)
unfolding oscillate_loop fire
oscillate_loop-running zero stop up near far d t = tt
oscillate_loop-running (suc fuel) stop up near far d t = elim (Bool-cases (ltb_ℤ (pos 0) d)) [
  | inr r ↦ rw r refl
  | inl r ↦ rw r (elim (Bool-cases (reached up (ahead up t.old_count d) near)) [
    | inr r ↦ rw r refl
    | inl r ↦ rw r (elim (Bool-cases (leb_ℤ (d -ℤ gap up t.old_count near) (pos 0) || stop)) [
      | inl r ↦ rw r refl
      | inr r ↦
          rw r
            (elim (Bool-cases
              (reached (not up) (ahead (not up) near (d -ℤ gap up t.old_count near)) far)) [
                | inr r ↦ rw r refl
                | inl r ↦ rw r (oscillate_loop-running fuel stop up near far _ _)
              ])
    ])
  ])
]

-- A sweep's result, settled.
settle-Gives :
    (c : Counter) (P Q : Sweep → Type 0) (R : Counter → Type 0) (o : Option Sweep)
    → Outcome P o
    → Partly Q o
    → ((t : Sweep)
        → P t
        → Q t
        → (c' : Counter) → (c'.count ≡ t.new_count)
        → (c'.forward ≡ t.direction)
        → (c'.running ≡ t.running)
        → R c')
    → Gives (λ c' _. R c') (settle c o)
unfolding settle fire
settle-Gives c P Q R none h q f = h
settle-Gives c P Q R (some t) h q f = f t h q _ refl refl refl

module _ (c : Counter) (fuel : ℕ) (m : CountMode) (up : Bool) (bound restart : ℤ) (period : ℕ)
    (walk : ℤ) where
  abbrev pub swept : Option (Counter × List ℕ)
  swept = settle c (
      sweep_mode fuel m false up bound restart (pos period) walk
        (sweep c c.count (ahead up c.count walk)))

  pub swept-Stopped : m ≡ once → Gives (λ c' _. Stopped c up bound walk c') swept
  unfolding sweep_mode settle fire once_at
  swept-Stopped e = rw e (elim (Bool-cases (reached up (ahead up c.count walk) bound)) [
    | inl r ↦ rw r (refl, (refl, refl))
    | inr r ↦ rw r (refl, (refl, refl))
  ])

  pub swept-Cycled :
      m ≡ cycle
      → bound ≡ ahead up restart (pos period)
      → 0 < period
      → Past up (ahead up c.count walk) restart
      → Short up (ahead up c.count walk) (ahead up bound (pos fuel))
      → Gives
          (λ c' _. Cycled c up bound restart period walk c')
          (settle c (
            sweep_mode
              (suc fuel)
              m
              false
              up
              bound
              restart
              (pos period)
              walk
              (sweep c c.count (ahead up c.count walk))))
  unfolding sweep_mode
  swept-Cycled e b p past short = rw e (
      settle-Gives c _ _ _ _ (cycle_loop-InLap fuel up bound restart period _ b p past short)
        (cycle_loop-Kept (suc fuel) false up bound restart (pos period) _)
        (λ t (s, q, l) (d, r) c' ec ed er. (ed ∙ d, er ∙ r, rw ec s, rw ec q, rw ec l)))

  pub swept-Oscillated :
      m ≡ oscillate
      → bound ≡ ahead up restart (pos period)
      → 0 < period
      → Between up bound restart c.count
      → pos 0 ≤ℤ walk
      → walk ≤ℤ pos fuel
      → Gives
          (λ c' _. Oscillated c up bound restart period walk c')
          (settle c (
            sweep_mode
              (suc fuel)
              m
              false
              up
              bound
              restart
              (pos period)
              walk
              (sweep c c.count (ahead up c.count walk))))
  unfolding sweep_mode
  swept-Oscillated e b p between ge le = rw e (
      settle-Gives c _ _ _ _
        (oscillate_loop-Bounced fuel up bound restart walk period _ b p between ge le (rest up))
        (oscillate_loop-running (suc fuel) false up bound restart walk _)
        (λ t w r c' ec ed er. (er ∙ r, rw (ec, ed) w)))
    where
      rest : (up : Bool) → ltb_ℤ (pos 0) walk ≡ false → ahead up c.count walk ≡ c.count
      rest true out = eq_of_parts _ _ (omega (int_laws, le_of_ltb_ℤ (pos 0) walk out))
      rest false out = eq_of_parts _ _ (omega (int_laws, le_of_ltb_ℤ (pos 0) walk out))
