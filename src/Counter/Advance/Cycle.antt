-- ===== src/Counter/Advance/Cycle.antt =====
-- The branches ONCE and CYCLE of `advance` of o3d-webgl/counter.js.
use toolbox.Base.{
  ℕ, zero, suc, ◌*◌, ◌<◌, ◌≡◌, ap, inl, inr, Bool, true, false, not, Option, none, some, arith,
  Bool-cases,
}
use toolbox.Base.Int.{ℤ, pos, ◌≤ℤ◌, ◌<ℤ◌, +ℤ_parts, -ℤ_parts, eq_of_parts, pos_part, neg_part}
use toolbox.Counter.Advance.{Sweep, cycle_loop, reached, ahead, fire}

-- `n` has not come to `bound`, going up or down.
abbrev pub Short : Bool → ℤ → ℤ → Type 0
Short true n bound = n <ℤ bound
Short false n bound = bound <ℤ n

-- `n` is at `bound` or past it.
abbrev pub Past : Bool → ℤ → ℤ → Type 0
Past true n bound = bound ≤ℤ n
Past false n bound = n ≤ℤ bound

abbrev pub Outcome : (Sweep → Type 0) → Option Sweep → Type 0
Outcome P none = ⊥
Outcome P (some t) = P t

-- The place after some laps: within the lap, a whole number of periods back.
abbrev pub InLap : Bool → (bound restart : ℤ) (period : ℕ) → ℤ → Sweep → Type 0
InLap up bound restart period n t =
    Short up t.new_count bound
    × Past up t.new_count restart
    × ((laps : ℕ) × (n ≡ ahead up t.new_count (pos (laps * period))))

pub Outcome-mono :
    (P Q : Sweep → Type 0) (o : Option Sweep)
    → ((t : Sweep) → P t → Q t)
    → Outcome P o
    → Outcome Q o
Outcome-mono P Q none f h = h
Outcome-mono P Q (some t) f h = f t h

InLap-here :
    (up : Bool) (bound restart : ℤ) (period : ℕ) (t : Sweep)
    → Past up t.new_count restart
    → reached up t.new_count bound ≡ false
    → InLap up bound restart period t.new_count t
InLap-here true bound restart period t past out = (
  ground arith,
  past,
  (0, eq_of_parts _ _ (omega (arith, +ℤ_parts t.new_count (pos (0 * period))))),
)
InLap-here false bound restart period t past out = (
  ground arith,
  past,
  (0, eq_of_parts _ _ (omega (arith, -ℤ_parts t.new_count (pos (0 * period))))),
)

-- One lap more.
InLap-again :
    (up : Bool) (bound restart : ℤ) (period : ℕ) (n : ℤ) (t : Sweep)
    → InLap up bound restart period (ahead (not up) n (pos period)) t
    → InLap up bound restart period n t
InLap-again true bound restart period n t (s, p, (laps, e)) = (
  s,
  p,
  (
    suc laps,
    eq_of_parts _ _ (
        omega (
          arith,
          -ℤ_parts n (pos period),
          +ℤ_parts t.new_count (pos (laps * period)),
          +ℤ_parts t.new_count (pos (suc laps * period)),
          ap pos_part e,
          ap neg_part e,
        )),
  ),
)
InLap-again false bound restart period n t (s, p, (laps, e)) = (
  s,
  p,
  (
    suc laps,
    eq_of_parts _ _ (
        omega (
          arith,
          +ℤ_parts n (pos period),
          -ℤ_parts t.new_count (pos (laps * period)),
          -ℤ_parts t.new_count (pos (suc laps * period)),
          ap pos_part e,
          ap neg_part e,
        )),
  ),
)

-- After a lap the count is still past the restart, and has less to go.
lap_step :
    (up : Bool) (bound restart n : ℤ) (period fuel : ℕ)
    → bound ≡ ahead up restart (pos period)
    → 0 < period
    → reached up n bound ≡ true
    → Short up n (ahead up bound (pos (suc fuel)))
    → Past up (ahead (not up) n (pos period)) restart
      × Short up (ahead (not up) n (pos period)) (ahead up bound (pos fuel))
lap_step true bound restart n period fuel e p r s =
    let le : bound ≤ℤ n = ground arith in
    (
      omega (
        arith,
        -ℤ_parts n (pos period),
        +ℤ_parts restart (pos period),
        ap pos_part e,
        ap neg_part e,
      ),
      omega (
        arith,
        -ℤ_parts n (pos period),
        +ℤ_parts bound (pos fuel),
        +ℤ_parts bound (pos (suc fuel)),
      ),
    )
lap_step false bound restart n period fuel e p r s =
    let le : n ≤ℤ bound = ground arith in
    (
      omega (
        arith,
        +ℤ_parts n (pos period),
        -ℤ_parts restart (pos period),
        ap pos_part e,
        ap neg_part e,
      ),
      omega (
        arith,
        +ℤ_parts n (pos period),
        -ℤ_parts bound (pos fuel),
        -ℤ_parts bound (pos (suc fuel)),
      ),
    )

-- With no fuel to spare the count is short of the bound.
not_reached :
    (up : Bool) (bound n : ℤ) → Short up n (ahead up bound (pos 0)) → reached up n bound ≡ true → ⊥
not_reached true bound n s r =
    let le : bound ≤ℤ n = ground arith in omega (arith, +ℤ_parts bound (pos 0))
not_reached false bound n s r =
    let le : n ≤ℤ bound = ground arith in omega (arith, -ℤ_parts bound (pos 0))

-- The loop CYCLE ends, within one period of the restart and a whole number of periods back.
pub cycle_loop-InLap :
    (fuel : ℕ) (up : Bool) (bound restart : ℤ) (period : ℕ) (t : Sweep)
    → bound ≡ ahead up restart (pos period)
    → 0 < period
    → Past up t.new_count restart
    → Short up t.new_count (ahead up bound (pos fuel))
    → Outcome
        (InLap up bound restart period t.new_count)
        (cycle_loop (suc fuel) false up bound restart (pos period) t)
unfolding cycle_loop fire
cycle_loop-InLap zero up bound restart period t e p past short =
    elim (Bool-cases (reached up t.new_count bound)) [
      | inl r ↦ absurd (not_reached up bound t.new_count short r)
      | inr out ↦ rw out (InLap-here up bound restart period t past out)
    ]
cycle_loop-InLap (suc fuel) up bound restart period t e p past short =
    elim (Bool-cases (reached up t.new_count bound)) [
      | inr out ↦ rw out (InLap-here up bound restart period t past out)
      | inl r ↦
          let (past', short') = lap_step up bound restart t.new_count period fuel e p r short in
          rw r (
            Outcome-mono _ _ _ (InLap-again up bound restart period t.new_count) (
              cycle_loop-InLap fuel up bound restart period
                (record (fire t.old_count bound t) {
                  old_count = restart;
                  new_count = ahead (not up) t.new_count (pos period);
                })
                e p past' short'))
    ]
