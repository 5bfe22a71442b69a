-- ===== src/Counter/Tests.antt =====
-- Counters run on concrete values, and the theorems about them at such values.
use toolbox.Base.{
  ◌≡◌, refl, true, false, none, some, [], ◌∷◌, if◌then◌else◌, arith, ◌==◌, Bool-cases, inl, inr,
  ◌≤◌,
}
use toolbox.Base.Int.{nat_abs, ℤ, pos, eqb_ℤ, ◌+ℤ◌, ◌-ℤ◌, ◌*ℤ◌}
use toolbox.Counter.Callbacks.{Callbacks, add_callback, remove_callback, call_callbacks}
use toolbox.Counter.Callbacks.Sorted.{IsSorted, find_callback, Removed, find_callback-callbacks}
use toolbox.Counter.Advance.{
  Counter, CountMode, continuous, once, cycle, oscillate, advance, delta_of,
}
use toolbox.Counter.Advance.Sweeps.{Gives, Stopped, Cycled, Oscillated}
use toolbox.Counter.Advance.Modes.{advance-Stopped, advance-Cycled, advance-Oscillated}
use toolbox.Counter.Manager.{
  World, tick, same_type, tick_manager, advance_render_frame_counters, set_running, set_gl,
}
use toolbox.Counter.Manager.Ticked.{Returns, Steady, tick_manager-Steady}
use toolbox.Counter.Manager.Registered.{IsRegistered, set_gl-IsRegistered}

-- Callbacks 10, 30 and 50 at the counts 1, 3 and 5.
abbrev bells : Callbacks
bells = record {
  callbacks =
      record { count = pos 1; callback = 10 }
      ∷ record { count = pos 3; callback = 30 }
      ∷ record { count = pos 5; callback = 50 }
      ∷ [];
  next_callback = none;
  prev_callback = 0;
  last_call_callbacks_end_count = pos 0;
}

abbrev counter : CountMode → ℤ → Counter
counter mode count = record {
  cb = bells;
  running = true;
  forward = true;
  start = pos 0;
  end = pos 4;
  count_mode = mode;
  multiplier = pos 1;
  count = count;
  input = none;
  old_count = count;
}

calls_up : (call_callbacks (pos 0) (pos 3) bells []).1 ≡ 10 ∷ 30 ∷ []
unfolding call_callbacks
calls_up = refl

calls_down : (call_callbacks (pos 5) (pos 3) bells []).1 ≡ 50 ∷ 30 ∷ []
unfolding call_callbacks
calls_down = refl

find_callback-callbacks_example :
    IsSorted (add_callback (pos 3) 40 bells).callbacks
    × ((m : ℤ)
        → find_callback m (add_callback (pos 3) 40 bells).callbacks
          ≡ (if eqb_ℤ (pos 3) m then some 40 else find_callback m bells.callbacks))
    × ((add_callback (pos 3) 40 bells).next_callback ≡ none)
    × ((add_callback (pos 3) 40 bells).prev_callback ≡ 0)
    × Removed (pos 3) bells (remove_callback (pos 3) bells)
find_callback-callbacks_example = find_callback-callbacks (pos 3) 40 bells (omega arith)

-- From 3 a step of 1 reaches the end, 4.
advance-Stopped_example :
    Gives
      (λ c' _. Stopped (counter once (pos 3)) true (pos 4) (pos 1) c')
      (advance 0 (pos 1) (counter once (pos 3)))
unfolding delta_of ◌-ℤ◌ ◌*ℤ◌ ◌+ℤ◌
advance-Stopped_example =
    advance-Stopped 0 (pos 1) (counter once (pos 3)) refl (omega arith) refl refl

-- From 3 a step of 9 passes the end three times.
advance-Cycled_example :
    Gives
      (λ c' _. Cycled (counter cycle (pos 3)) true (pos 4) (pos 0) 4 (pos 9) c')
      (advance 10 (pos 9) (counter cycle (pos 3)))
unfolding delta_of ◌-ℤ◌ ◌*ℤ◌ ◌+ℤ◌
advance-Cycled_example =
    advance-Cycled 9 (pos 9) (counter cycle (pos 3)) refl (omega arith) refl refl (omega arith)
      (omega arith) (omega arith)

-- From 3 a step of 9 turns at 4, at 0 and at 4 again.
advance-Oscillated_example :
    Gives
      (λ c' _. Oscillated (counter oscillate (pos 3)) true (pos 4) (pos 0) 4 (pos 9) c')
      (advance 10 (pos 9) (counter oscillate (pos 3)))
unfolding delta_of ◌-ℤ◌ ◌*ℤ◌ ◌+ℤ◌
advance-Oscillated_example =
    advance-Oscillated 9 (pos 9) (counter oscillate (pos 3)) refl (omega arith) refl refl
      (omega arith) (omega arith)

-- The fuel of |delta| is one round short.
short_of_fuel : advance 1 (pos 1) (record (counter cycle (pos 0)) { end = pos 1 }) ≡ none
unfolding advance ◌-ℤ◌ ◌*ℤ◌ ◌+ℤ◌
short_of_fuel = refl

-- Start 4 above end 0: forward by 1 from 3 is 2.
forward_is_down :
    Gives
      (λ c' _. c'.count ≡ pos 2)
      (advance 0 (pos 1) (record (counter continuous (pos 3)) { start = pos 4; end = pos 0 }))
unfolding advance ◌-ℤ◌ ◌*ℤ◌ ◌+ℤ◌
forward_is_down = refl

-- One counter runs, 7, in mode CYCLE.
abbrev clock : World
clock = record {
  counter = λ i.
      if i == 7 then counter cycle (pos 3) else record (counter cycle (pos 3)) { running = false };
  managed = λ i. true;
  counter_type = λ i. tick;
  counter_map = λ t. if same_type tick t then 7 ∷ [] else [];
  last_updated = none;
}

clock-IsRegistered : IsRegistered clock
clock-IsRegistered i t = ground arith

-- An amount of 2 at most moves each of them by 2 at most.
once_more : (a : ℤ) → nat_abs a ≤ 2 → nat_abs (a *ℤ pos 1) ≤ 2
unfolding ◌*ℤ◌
once_more a h = ground arith

clock-Steady : Steady 2 2 (pos 0) clock
unfolding ◌-ℤ◌
clock-Steady = (
  clock-IsRegistered,
  λ i. elim (Bool-cases (i == 7)) [
    | inl t ↦ rw t (once_more, λ loop wide. (omega arith, omega arith))
    | inr t ↦ rw t (once_more, λ loop wide. (omega arith, omega arith))
  ],
  omega arith,
)

tick_manager-Steady_example :
    Returns (Steady 2 2 (pos 0)) (tick_manager (λ f w. w) 4 (pos 0) clock)
    × Returns (Steady 2 2 (pos 0)) (advance_render_frame_counters (λ f w. w) 4 clock)
tick_manager-Steady_example =
    tick_manager-Steady 2 2 (pos 0) (λ f w. w) (λ f w h. h) clock (omega arith) clock-Steady

set_gl-IsRegistered_example :
    IsRegistered (set_running 7 false clock)
    × IsRegistered (set_gl 7 true clock)
    × (((set_gl 7 true clock).counter 7).running ≡ (clock.counter 7).running)
    × (true ≡ true → (set_gl 7 true clock).managed 7 ≡ true)
set_gl-IsRegistered_example = set_gl-IsRegistered 7 false true clock clock-IsRegistered
