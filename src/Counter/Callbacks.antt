-- ===== src/Counter/Callbacks.antt =====
-- The callback list of a counter: `addCallback`, `removeCallback`, `removeAllCallbacks` and
-- `callCallbacks_` of o3d-webgl/counter.js.
pub mod Sorted
pub mod Fired
pub mod Calls
use toolbox.Base.{
  ℕ, zero, suc, ◌+◌, ◌-◌, Bool, true, false, not, ◌||◌, Option, none, some, List, [], ◌∷◌, ◌++◌,
  map, ◌==◌, if◌then◌else◌, length, take, drop,
}
use toolbox.Base.Int.{ℤ, ltb_ℤ, eqb_ℤ}
use mathlib.Core.List.{reverse}

-- A callback function is known by a number. The flag `called_` of the source is read by `run` only,
-- which `callCallbacks_` does not call.
pub record CallbackInfo : Type 0 where
  pub count : ℤ
  pub callback : ℕ

-- The fields of a counter that these methods read and write. `next_callback` is `none` for -1, and
-- `prev_callback` is the source's number plus one, so that 0 stands for -1.
pub record Callbacks : Type 0 where
  pub callbacks : List CallbackInfo
  pub next_callback : Option ℕ
  pub prev_callback : ℕ
  pub last_call_callbacks_end_count : ℤ

-- The insertion loop of `addCallback`: an entry at the same count is overwritten in place.
insert_callback : ℤ → ℕ → List CallbackInfo → List CallbackInfo
insert_callback count callback [] = record { count = count; callback = callback } ∷ []
insert_callback count callback (current ∷ rest) =
    if eqb_ℤ current.count count
    then record current { callback = callback } ∷ rest
    else if ltb_ℤ count current.count
    then record { count = count; callback = callback } ∷ current ∷ rest
    else current ∷ insert_callback count callback rest

unfoldable pub add_callback : ℤ → ℕ → Callbacks → Callbacks
unfolding insert_callback
add_callback count callback c = record c {
  callbacks = insert_callback count callback c.callbacks;
  next_callback = none;
  prev_callback = 0;
}

-- The loop of `removeCallback`: the first entry at the count goes.
delete_callback : ℤ → List CallbackInfo → Option (List CallbackInfo)
delete_callback count [] = none
delete_callback count (current ∷ rest) =
    if eqb_ℤ current.count count
    then some rest
    else elim (delete_callback count rest) [ none ↦ none | some left ↦ some (current ∷ left) ]

unfoldable pub remove_callback : ℤ → Callbacks → Callbacks × Bool
unfolding delete_callback
remove_callback count c = elim (delete_callback count c.callbacks) [
  | none ↦ (c, false)
  | some left ↦ (record c { callbacks = left; next_callback = none; prev_callback = 0 }, true)
]

pub remove_all_callbacks : Callbacks → Callbacks
remove_all_callbacks c = record c { callbacks = []; next_callback = none; prev_callback = 0 }

-- The search for the first callback at `start_count` or later, going forward.
pub find_next : ℤ → List CallbackInfo → ℕ
find_next start_count [] = 0
find_next start_count (c ∷ cs) =
    if ltb_ℤ c.count start_count then suc (find_next start_count cs) else 0

-- The callbacks that are queued going forward, up to one past `end_count`.
pub collect_next : ℤ → List CallbackInfo → List CallbackInfo
collect_next end_count [] = []
collect_next end_count (c ∷ cs) =
    if ltb_ℤ end_count c.count then [] else c ∷ collect_next end_count cs

-- The same two loops going backward. They walk the list from its end, so they get it reversed; the
-- first returns how many callbacks are left.
pub find_prev : ℤ → List CallbackInfo → ℕ
find_prev start_count [] = 0
find_prev start_count (c ∷ cs) =
    if ltb_ℤ start_count c.count then find_prev start_count cs else suc (length cs)

pub collect_prev : ℤ → List CallbackInfo → List CallbackInfo
collect_prev end_count [] = []
collect_prev end_count (c ∷ cs) =
    if ltb_ℤ c.count end_count then [] else c ∷ collect_prev end_count cs

-- What is queued is the function of each callback.
abbrev pub functions : List CallbackInfo → List ℕ
functions = map (λ c. c.callback)

-- Where the walk forward begins: at the remembered place, if the last call ended at `start_count`.
pub next_index : ℤ → Callbacks → ℕ
unfolding find_next
next_index start_count c = elim c.next_callback [
  | none ↦ find_next start_count c.callbacks
  | some n ↦
      if not (eqb_ℤ start_count c.last_call_callbacks_end_count)
      then find_next start_count c.callbacks
      else n
]

pub prev_index : ℤ → Callbacks → ℕ
unfolding find_prev
prev_index start_count c =
    if c.prev_callback == 0 || not (eqb_ℤ start_count c.last_call_callbacks_end_count)
    then find_prev start_count (reverse c.callbacks)
    else c.prev_callback

pub forward_fired : ℤ → ℤ → Callbacks → List CallbackInfo
unfolding next_index collect_next
forward_fired start_count end_count c =
    collect_next end_count (drop (next_index start_count c) c.callbacks)

pub backward_fired : ℤ → ℤ → Callbacks → List CallbackInfo
unfolding prev_index collect_prev
backward_fired start_count end_count c =
    collect_prev end_count (reverse (take (prev_index start_count c) c.callbacks))

pub call_forward : ℤ → ℤ → Callbacks → Callbacks
unfolding next_index forward_fired
call_forward start_count end_count c = record c {
  next_callback = some (next_index start_count c + length (forward_fired start_count end_count c));
  prev_callback = 0;
  last_call_callbacks_end_count = end_count;
}

pub call_backward : ℤ → ℤ → Callbacks → Callbacks
unfolding prev_index backward_fired
call_backward start_count end_count c = record c {
  prev_callback = prev_index start_count c - length (backward_fired start_count end_count c);
  next_callback = none;
  last_call_callbacks_end_count = end_count;
}

-- `callCallbacks_`: the new state and the longer queue.
unfoldable pub call_callbacks : ℤ → ℤ → Callbacks → List ℕ → Callbacks × List ℕ
unfolding call_forward call_backward forward_fired backward_fired
call_callbacks start_count end_count c queue =
    if ltb_ℤ start_count end_count
    then (
      call_forward start_count end_count c,
      queue ++ functions (forward_fired start_count end_count c),
    )
    else if ltb_ℤ end_count start_count
    then (
      call_backward start_count end_count c,
      queue ++ functions (backward_fired start_count end_count c),
    )
    else (c, queue)
