-- ===== src/Counter/Advance/Modes.antt =====
-- What `advance` does to a free counter in each of its modes. The course says which way the count
-- goes (up or down), to which bound, from which other bound, and how far: |delta|. The way is the
-- code's: where the start is above the end, a counter that goes forward by a positive amount goes
-- down, though the comment of `advance` has the count grow by the amount then.
use toolbox.Base.{ℕ, suc, ◌<◌, ◌≡◌, Bool, true, false, none}
use toolbox.Base.Int.{ℤ, pos, eqb_ℤ, ◌≤ℤ◌, int_laws}
use toolbox.Counter.Advance.{Counter, once, cycle, oscillate, advance, delta_of, ahead}
use toolbox.Counter.Advance.Cycle.{Short, Past}
use toolbox.Counter.Advance.Oscillate.{Between}
use toolbox.Counter.Advance.Branches.{
  Course, course, span, course_bounds, course_walk, advance-course,
}
use toolbox.Counter.Advance.Sweeps.{
  Gives, Stopped, Cycled, Oscillated, swept-Stopped, swept-Cycled, swept-Oscillated,
}

lap_fuel :
    (up : Bool) (bound restart n walk : ℤ) (fuel : ℕ)
    → Short up n bound
    → Past up n restart
    → pos 0 ≤ℤ walk
    → walk ≤ℤ pos fuel
    → Past up (ahead up n walk) restart × Short up (ahead up n walk) (ahead up bound (pos fuel))
lap_fuel true bound restart n walk fuel s p ge le = (omega int_laws, omega int_laws)
lap_fuel false bound restart n walk fuel s p ge le = (omega int_laws, omega int_laws)

module _ (fuel : ℕ) (amount : ℤ) (c : Counter) (free : c.input ≡ none) (apart : 0 < span c)
    (moves : eqb_ℤ (delta_of amount c) (pos 0) ≡ false) where
  abbrev path : Course
  path = course (delta_of amount c) c

  -- In mode ONCE, with start and end apart and delta not 0, a counter that gets to its bound or
  -- past it is put there and stops running; one that does not goes |delta| ahead and runs on. The
  -- direction stays. Ahead is down for a positive delta where the start is above the end.
  pub advance-Stopped :
      c.count_mode ≡ once
      → Gives (λ c' _. Stopped c path.up path.bound path.walk c') (advance fuel amount c)
  advance-Stopped mode =
      rw (advance-course fuel amount c free apart moves)
        (swept-Stopped c fuel c.count_mode path.up path.bound path.restart (span c) path.walk mode)

  -- In mode CYCLE, with start and end apart, delta not 0 and the count between the bounds but not
  -- at the one ahead, `advance` ends if the fuel is |delta| + 1 or more, with the count again
  -- between the bounds and not at the one ahead, |delta| ahead but for a whole number of periods.
  -- The counter runs on in the same direction. Ahead is down for a positive delta where the start
  -- is above the end.
  pub advance-Cycled :
      c.count_mode ≡ cycle
      → Short path.up c.count path.bound
      → Past path.up c.count path.restart
      → path.walk ≤ℤ pos fuel
      → Gives
          (λ c' _. Cycled c path.up path.bound path.restart (span c) path.walk c')
          (advance (suc fuel) amount c)
  advance-Cycled mode short past enough =
      let (p, s) =
        lap_fuel path.up path.bound path.restart c.count path.walk fuel short past
          (course_walk (delta_of amount c) c) enough in
      rw (advance-course (suc fuel) amount c free apart moves) (
        swept-Cycled c fuel c.count_mode path.up path.bound path.restart (span c) path.walk mode
          (course_bounds (delta_of amount c) c) apart p s)

  -- In mode OSCILLATE, with start and end apart, delta not 0 and the count between the bounds,
  -- `advance` ends if the fuel is |delta| + 1 or more, with the count between the bounds, where a
  -- travel of |delta| to and fro ends, and in the direction of that part of the travel. The travel
  -- begins downwards for a positive delta where the start is above the end.
  pub advance-Oscillated :
      c.count_mode ≡ oscillate
      → Between path.up path.bound path.restart c.count
      → path.walk ≤ℤ pos fuel
      → Gives
          (λ c' _. Oscillated c path.up path.bound path.restart (span c) path.walk c')
          (advance (suc fuel) amount c)
  advance-Oscillated mode between enough =
      rw (advance-course (suc fuel) amount c free apart moves) (
        swept-Oscillated c fuel c.count_mode path.up path.bound path.restart (span c) path.walk mode
          (course_bounds (delta_of amount c) c) apart between (course_walk (delta_of amount c) c)
          enough)
