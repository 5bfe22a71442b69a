-- ===== src/Counter/Manager/Registered.antt =====
-- The arrays of running counters of a `CounterManager`, o3d-webgl/counter.js.
use toolbox.Base.{
  ℕ, ◌≡◌, Bool, true, false, ◌&&◌, [], ◌∷◌, ◌==◌, if◌then◌else◌, Bool-cases, inl, inr, arith,
}
use toolbox.Base.Arrays.{count, count-append, count-remove_from_array}
use toolbox.Counter.Advance.{Counter}
use toolbox.Counter.Manager.{
  World, CounterType, same_type, set_counter, register_counter, unregister_counter, differ,
  set_running, store_counter, set_gl, give_manager,
}

abbrev pub IsRegistered : World → Type 0
IsRegistered w =
    (i : ℕ) (t : CounterType)
    → count i (w.counter_map t)
      ≡ (if same_type (w.counter_type i) t && (w.managed i && (w.counter i).running) then 1 else 0)

eq_of_same_type : (t u : CounterType) → same_type t u ≡ true → t ≡ u
eq_of_same_type t u h = ground arith

same_type_self : (t : CounterType) → same_type t t ≡ true
same_type_self t = ground arith

-- The array of the type of `i` with `i` put in or taken out, at any type.
module _ (i : ℕ) (w : World) (h : IsRegistered w) (mine : w.managed i ≡ true) (j : ℕ)
    (t : CounterType) where
  count-register :
      (w.counter i).running ≡ false
      → count j ((register_counter i w).counter_map t) ≡ (
          if same_type (w.counter_type j) t
            && (w.managed j && (if i == j then true else (w.counter j).running))
          then 1
          else 0)
  unfolding register_counter
  count-register off = elim (Bool-cases (same_type (w.counter_type i) t)) [
    | inl same ↦
        let e = eq_of_same_type (w.counter_type i) t same in
        ground (
          arith,
          e,
          same,
          count-append j (w.counter_map (w.counter_type i)) (i ∷ []),
          h j t,
          h i t,
          off,
          mine,
        )
    | inr other ↦ ground (arith, other, mine, h j t, h i t)
  ]

  count-unregister :
      (w.counter i).running ≡ true
      → count j ((unregister_counter i w).counter_map t) ≡ (
          if same_type (w.counter_type j) t
            && (w.managed j && (if i == j then false else (w.counter j).running))
          then 1
          else 0)
  unfolding unregister_counter
  count-unregister on = elim (Bool-cases (same_type (w.counter_type i) t)) [
    | inl same ↦
        let e = eq_of_same_type (w.counter_type i) t same in
        ground (
          arith,
          e,
          same,
          count-remove_from_array i j (w.counter_map (w.counter_type i)),
          h j t,
          h i t,
          on,
          mine,
        )
    | inr other ↦ ground (arith, other, mine, h j t, h i t)
  ]

set_running-count :
    (i : ℕ) (r : Bool) (w : World) (j : ℕ) (t : CounterType)
    → IsRegistered w
    → count j ((set_running i r w).counter_map t) ≡ (
        if same_type (w.counter_type j) t
          && (w.managed j && (if i == j then r else (w.counter j).running))
        then 1
        else 0)
unfolding set_running
set_running-count i r w j t h = elim (Bool-cases (w.managed i)) [
  | inr alone ↦ rw alone (ground (arith, alone, h j t))
  | inl mine ↦ rw mine (elim (Bool-cases r) [
    | inl true_r ↦ rw true_r (elim (Bool-cases (w.counter i).running) [
      | inl on ↦ rw on (ground (arith, on, h j t))
      | inr off ↦ rw off (count-register i w h mine j t off)
    ])
    | inr false_r ↦ rw false_r (elim (Bool-cases (w.counter i).running) [
      | inl on ↦ rw on (count-unregister i w h mine j t on)
      | inr off ↦ rw off (ground (arith, off, h j t))
    ])
  ])
]

-- The setter touches no other counter's `running`, and no counter's type.
set_running-running :
    (i : ℕ) (r : Bool) (w : World) (j : ℕ)
    → (((set_running i r w).counter j).running ≡ (if i == j then r else (w.counter j).running))
      × ((set_running i r w).counter_type j ≡ w.counter_type j)
      × ((set_running i r w).managed j ≡ w.managed j)
unfolding set_running register_counter unregister_counter
set_running-running i r w j = ground arith

set_running-IsRegistered :
    (i : ℕ) (r : Bool) (w : World) → IsRegistered w → IsRegistered (set_running i r w)
set_running-IsRegistered i r w h j t =
    let (running, type, managed) = set_running-running i r w j in
    rw (running, type, managed) (set_running-count i r w j t h)

-- A stopped counter may get its manager.
give_manager-IsRegistered :
    (i : ℕ) (w : World)
    → IsRegistered w
    → (w.counter i).running ≡ false
    → IsRegistered (give_manager i w)
give_manager-IsRegistered i w h off j t = elim (Bool-cases (i == j)) [
  | inl same ↦
      let eq : i ≡ j = ground arith in
      let at_i = h i t in rw (same, ← eq) (ground (arith, off, at_i))
  | inr other ↦ rw other (h j t)
]

-- The setter of `running` enters a counter that has its manager and starts in the array of its type,
-- and takes one that stops out of it; the setter of `gl` enters a running counter when it gives it
-- its manager. Both keep every running counter that has its manager in the array of its type once
-- and in no other array, and every other counter in none.
pub set_gl-IsRegistered :
    (i : ℕ) (running has_client : Bool) (w : World)
    → IsRegistered w
    → IsRegistered (set_running i running w)
      × IsRegistered (set_gl i has_client w)
      × (((set_gl i has_client w).counter i).running ≡ (w.counter i).running)
      × (has_client ≡ true → (set_gl i has_client w).managed i ≡ true)
unfolding set_gl
set_gl-IsRegistered i running has_client w h =
    let stopped = set_running i false w in
    let h' = set_running-IsRegistered i false w h in
    let off : (stopped.counter i).running ≡ false =
      ground (arith, set_running-running i false w i) in
    let on = (w.counter i).running in
    (
      set_running-IsRegistered i running w h,
      elim (Bool-cases has_client) [
        | inl t ↦ rw t (
            set_running-IsRegistered i on (give_manager i stopped)
              (give_manager-IsRegistered i stopped h' off))
        | inr t ↦ rw t (set_running-IsRegistered i on stopped h')
      ],
      elim (Bool-cases has_client) [
        | inl t ↦ rw t (ground (arith, set_running-running i on (give_manager i stopped) i))
        | inr t ↦ rw t (ground (arith, set_running-running i on stopped i))
      ],
      λ t. rw t (ground (arith, set_running-running i on (give_manager i stopped) i)),
    )

-- The stopped counter is stored anew with its running flag as it was set.
set_counter-IsRegistered :
    (i : ℕ) (c : Counter) (w : World)
    → IsRegistered w
    → c.running ≡ (w.counter i).running
    → IsRegistered (set_counter w i c)
set_counter-IsRegistered i c w h e j t = elim (Bool-cases (i == j)) [
  | inl same ↦ let eq : i ≡ j = ground arith in rw (same, e, eq) (h j t)
  | inr other ↦ rw other (h j t)
]

pub store_counter-IsRegistered :
    (i : ℕ) (c : Counter) (w : World) → IsRegistered w → IsRegistered (store_counter i c w)
unfolding store_counter
store_counter-IsRegistered i c w h = elim (Bool-cases (differ (w.counter i).running c.running)) [
  | inl d ↦
      let (running, type, managed) = set_running-running i c.running w i in
      rw d (
        set_counter-IsRegistered i c (set_running i c.running w)
          (set_running-IsRegistered i c.running w h) (ground (arith, running)))
  | inr d ↦ rw d (set_counter-IsRegistered i c w h (ground arith))
]
