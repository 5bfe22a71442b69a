-- ===== src/Counter/Manager/Ticked.antt =====
-- The ticks of a `CounterManager`, o3d-webgl/counter.js: they return and keep the arrays right.
use toolbox.Base.{
  ℕ, suc, ◌≤◌, ◌≡◌, refl, Bool, Option, none, some, List, [], ◌∷◌, ◌==◌, if◌then◌else◌, ◌&&◌,
  Bool-cases, inl, inr, arith, if-both,
}
use toolbox.Base.Int.{ℤ, pos, ◌-ℤ◌, nat_abs}
use toolbox.Counter.Advance.{Counter, advance}
use toolbox.Counter.Advance.Sweeps.{Gives}
use toolbox.Counter.Advance.Returns.{Fits, advance-Fits}
use toolbox.Counter.Manager.{
  World, register_counter, unregister_counter, differ, set_counter, set_running, store_counter,
  call_all, advance_counter, advance_ids, advance_counters, delta_seconds, tick_manager,
  advance_render_frame_counters, second, tick, render_frame,
}
use toolbox.Counter.Manager.Registered.{IsRegistered, store_counter-IsRegistered}

-- A run returns a world as stated.
abbrev pub Returns : (World → Type 0) → Option World → Type 0
Returns P o = (w : World) × (o ≡ some w) × P w

-- The arrays hold the running counters, an amount of at most `reach` moves each counter by at most
-- `fuel` and in the modes CYCLE and OSCILLATE each count is between its bounds, and `reach` is at
-- least the time since the last tick.
abbrev pub Steady : (reach fuel : ℕ) → ℤ → World → Type 0
Steady reach fuel now w =
    IsRegistered w
    × ((i : ℕ) → Fits reach fuel (w.counter i))
    × (nat_abs (delta_seconds now w) ≤ reach)

-- The setter of `running` writes the counter and an array.
set_running-counter :
    (i : ℕ) (r : Bool) (w : World)
    → ((set_running i r w).counter
        ≡ (λ j. if i == j then record (w.counter i) { running = r } else w.counter j))
      × ((set_running i r w).last_updated ≡ w.last_updated)
unfolding set_running register_counter unregister_counter
set_running-counter i r w = elim (Bool-cases (w.managed i && differ (w.counter i).running r)) [
  | inr t ↦ rw t (refl, refl)
  | inl t ↦ rw t (elim (Bool-cases r) [ inl u ↦ rw u (refl, refl) | inr u ↦ rw u (refl, refl) ])
]

store_counter-last_updated :
    (i : ℕ) (c : Counter) (w : World) → (store_counter i c w).last_updated ≡ w.last_updated
unfolding store_counter
store_counter-last_updated i c w = elim (Bool-cases (differ (w.counter i).running c.running)) [
  | inl t ↦ rw t (set_running-counter i c.running w).1
  | inr t ↦ rw t refl
]

module _ (reach fuel : ℕ) where
  abbrev AllFit : World → Type 0
  AllFit w = (i : ℕ) → Fits reach fuel (w.counter i)

  set_counter-AllFit :
      (i : ℕ) (c : Counter) (w : World) → AllFit w → Fits reach fuel c → AllFit (set_counter w i c)
  set_counter-AllFit i c w h f j = elim (Bool-cases (i == j)) [
    | inl t ↦ rw t f
    | inr t ↦ rw t (h j)
  ]

  store_counter-AllFit :
      (i : ℕ) (c : Counter) (w : World)
      → AllFit w
      → Fits reach fuel c
      → AllFit (store_counter i c w)
  unfolding store_counter
  store_counter-AllFit i c w h f = elim (Bool-cases (differ (w.counter i).running c.running)) [
    | inr t ↦ rw t (set_counter-AllFit i c w h f)
    | inl t ↦
        let before : AllFit (set_running i c.running w) = λ j.
          rw ((set_running-counter i c.running w).0)
            (set_counter-AllFit i (record (w.counter i) { running = c.running }) w h (h i) j) in
        rw t (set_counter-AllFit i c (set_running i c.running w) before f)
  ]

  module _ (now : ℤ) (call : ℕ → World → World)
      (keeps : (f : ℕ) (w : World)
        → Steady reach fuel now w
        → Steady reach fuel now (call f w)) where
    call_all-Steady :
        (fs : List ℕ) (w : World)
        → Steady reach fuel now w
        → Steady reach fuel now (call_all call fs w)
    call_all-Steady [] w h = h
    call_all-Steady (f ∷ fs) w h = call_all-Steady fs (call f w) (keeps f w h)

    abbrev Back : Option World → Type 0
    Back = Returns (Steady reach fuel now)

    stored-Back :
        (i : ℕ) (w : World) (o : Option (Counter × List ℕ))
        → Steady reach fuel now w
        → Gives (λ c _. Fits reach fuel c) o
        → Back (elim o [
          | none ↦ none
          | some (c, queue) ↦ some (call_all call queue (store_counter i c w))
        ])
    stored-Back i w none h g = absurd g
    stored-Back i w (some (c, queue)) (arrays, all, short) g = (
      call_all call queue (store_counter i c w),
      refl,
      call_all-Steady queue (store_counter i c w) (
        store_counter-IsRegistered i c w arrays,
        store_counter-AllFit i c w all g,
        rw (store_counter-last_updated i c w) short,
      ),
    )

    advance_counter-Back :
        (amount : ℤ) (i : ℕ) (w : World)
        → nat_abs amount ≤ reach
        → Steady reach fuel now w
        → Back (advance_counter call (suc (suc fuel)) amount i w)
    unfolding advance_counter
    advance_counter-Back amount i w near h =
        stored-Back i w (advance (suc (suc fuel)) amount (w.counter i)) h
          (advance-Fits reach fuel amount (w.counter i) near (h.1 i))

    Back-bind :
        (o : Option World) (k : World → Option World)
        → Back o
        → ((w : World) → Steady reach fuel now w → Back (k w))
        → Back (elim o [ none ↦ none | some w ↦ k w ])
    Back-bind o k (w, e, h) f = rw e (f w h)

    advance_ids-Back :
        (amount : ℤ) (ids : List ℕ) (w : World)
        → nat_abs amount ≤ reach
        → Steady reach fuel now w
        → Back (advance_ids call (suc (suc fuel)) amount ids w)
    unfolding advance_ids
    advance_ids-Back amount [] w near h = (w, refl, h)
    advance_ids-Back amount (i ∷ ids) w near h =
        Back-bind _ (advance_ids call (suc (suc fuel)) amount ids)
          (if-both Back (w.counter i).running (advance_counter-Back amount i w near h) (w, refl, h))
          (λ w' h'. advance_ids-Back amount ids w' near h')

    now-now : nat_abs (now -ℤ now) ≡ 0
    unfolding ◌-ℤ◌
    now-now = ground arith

    -- Let an amount of `reach` at most, 1 included, move each counter by at most `fuel`, and let the
    -- count of each counter in the modes CYCLE and OSCILLATE be between its start and end, if they
    -- differ. Where the time since the last tick is at most `reach` too, every running counter that
    -- has its manager is in the array of its type once, every other counter is in none, and the
    -- called functions keep all this, `tick` and `advanceRenderFrameCounters` return with loops of
    -- `fuel` + 2 rounds at most, and all this is so again.
    pub tick_manager-Steady :
        (w : World)
        → 1 ≤ reach
        → Steady reach fuel now w
        → Returns (Steady reach fuel now) (tick_manager call (suc (suc fuel)) now w)
          × Returns (Steady reach fuel now) (advance_render_frame_counters call (suc (suc fuel)) w)
    unfolding tick_manager advance_counters advance_render_frame_counters
    tick_manager-Steady w one h = (
      Back-bind _ _ (advance_ids-Back (pos 1) (w.counter_map tick) w (omega arith) h) (λ w' h'.
          advance_ids-Back (delta_seconds now w') (w'.counter_map second)
            (record w' { last_updated = some now }) h'.2 (h'.0, h'.1, omega (arith, now-now))),
      advance_ids-Back (pos 1) (w.counter_map render_frame) w (omega arith) h,
    )
