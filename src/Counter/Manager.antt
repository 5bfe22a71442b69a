-- ===== src/Counter/Manager.antt =====
-- `CounterManager` of o3d-webgl/counter.js, and the setter of a counter's `running`, which enters
-- the counter in the manager's arrays.
pub mod Registered
pub mod Ticked
use toolbox.Base.{
  ℕ, suc, Bool, true, false, not, ◌&&◌, Option, none, some, List, [], ◌∷◌, ◌++◌, ◌==◌,
  if◌then◌else◌,
}
use toolbox.Base.Int.{ℤ, pos, ◌-ℤ◌}
use toolbox.Base.Arrays.{remove_from_array}
use toolbox.Counter.Advance.{Counter, advance}

pub data CounterType : Type 0 where
  base second render_frame tick : CounterType

abbrev pub same_type : CounterType → CounterType → Bool
same_type base base = true
same_type second second = true
same_type render_frame render_frame = true
same_type tick tick = true
same_type _ _ = false

-- The counters, known by ids, and the manager: `counterMap_` with a missing entry as an empty
-- array, and the time of the last tick in seconds. `managed` tells of each counter whether it has got
-- its `counter_manager_`, which is the one manager of the world.
pub record World : Type 0 where
  pub counter : ℕ → Counter
  pub managed : ℕ → Bool
  pub counter_type : ℕ → CounterType
  pub counter_map : CounterType → List ℕ
  pub last_updated : Option ℤ

abbrev pub set_counter : World → ℕ → Counter → World
set_counter w i c = record w { counter = λ j. if i == j then c else w.counter j }

abbrev pub set_array : World → CounterType → List ℕ → World
set_array w t ids = record w { counter_map = λ u. if same_type t u then ids else w.counter_map u }

unfoldable pub register_counter : ℕ → World → World
register_counter i w = let t = w.counter_type i in set_array w t (w.counter_map t ++ i ∷ [])

unfoldable pub unregister_counter : ℕ → World → World
unregister_counter i w =
    let t = w.counter_type i in set_array w t (remove_from_array (w.counter_map t) i)

-- The two Booleans differ.
abbrev pub differ : Bool → Bool → Bool
differ a b = if a then not b else b

-- The setter of `running`.
unfoldable pub set_running : ℕ → Bool → World → World
unfolding register_counter unregister_counter
set_running i new_running w =
    let w' =
      (if w.managed i && differ (w.counter i).running new_running
        then (if not new_running then unregister_counter i w else register_counter i w)
        else w) in
    set_counter w' i (record (w'.counter i) { running = new_running })

abbrev pub give_manager : ℕ → World → World
give_manager i w = record w { managed = λ j. if i == j then true else w.managed j }

-- The setter of `gl`: `has_client` tells whether the new value has a client, whose manager the
-- counter then gets.
unfoldable pub set_gl : ℕ → Bool → World → World
set_gl i has_client w =
    let stopped = set_running i false w in
    set_running i (w.counter i).running (if has_client then give_manager i stopped else stopped)

-- The queued functions of one `advance`; what each does is a parameter.
abbrev pub call_all : (ℕ → World → World) → List ℕ → World → World
call_all call [] w = w
call_all call (f ∷ fs) w = call_all call fs (call f w)

-- What `advance` leaves behind: it stops the counter through the setter above.
pub store_counter : ℕ → Counter → World → World
store_counter i c w =
    let stopped =
      (if differ (w.counter i).running c.running then set_running i c.running w else w) in
    set_counter stopped i c

-- `advance` of a counter in the world.
pub advance_counter : (ℕ → World → World) → ℕ → ℤ → ℕ → World → Option World
unfolding store_counter
advance_counter call fuel amount i w = elim (advance fuel amount (w.counter i)) [
  | none ↦ none
  | some (c, queue) ↦ some (call_all call queue (store_counter i c w))
]

-- The loop of `advanceCounters` over its copy of the array.
pub advance_ids : (ℕ → World → World) → ℕ → ℤ → List ℕ → World → Option World
advance_ids call fuel amount [] w = some w
advance_ids call fuel amount (i ∷ is) w =
    elim (if (w.counter i).running then advance_counter call fuel amount i w else some w) [
      | none ↦ none
      | some w' ↦ advance_ids call fuel amount is w'
    ]

unfoldable pub advance_counters : (ℕ → World → World) → ℕ → CounterType → ℤ → World → Option World
unfolding advance_ids advance_counter
advance_counters call fuel t amount w = advance_ids call fuel amount (w.counter_map t) w

-- The time since the last tick.
abbrev pub delta_seconds : ℤ → World → ℤ
delta_seconds now w = elim w.last_updated [ none ↦ pos 0 | some last ↦ now -ℤ last ]

unfoldable pub tick_manager : (ℕ → World → World) → ℕ → ℤ → World → Option World
unfolding advance_counters
tick_manager call fuel now w = elim (advance_counters call fuel tick (pos 1) w) [
  | none ↦ none
  | some w' ↦
      advance_counters call fuel second (delta_seconds now w')
        (record w' { last_updated = some now })
]

unfoldable pub advance_render_frame_counters : (ℕ → World → World) → ℕ → World → Option World
unfolding advance_counters
advance_render_frame_counters call fuel w = advance_counters call fuel render_frame (pos 1) w
