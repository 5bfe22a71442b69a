-- ===== src/Counter/Advance.antt =====
-- `Counter.advance` of o3d-webgl/counter.js. Counts are integers here, and the arithmetic is exact.
pub mod Cycle
pub mod Oscillate
pub mod Branches
pub mod Sweeps
pub mod Modes
pub mod Returns
use toolbox.Base.{
  ℕ, zero, suc, ◌+◌, Bool, true, false, not, ◌||◌, Option, none, some, List, [], if◌then◌else◌,
}
use toolbox.Base.Int.{ℤ, pos, ltb_ℤ, leb_ℤ, eqb_ℤ, ◌+ℤ◌, ◌-ℤ◌, ◌*ℤ◌}
use toolbox.Counter.Callbacks.{Callbacks, call_callbacks}

-- `other` stands for a number that is none of the four modes, which the switches treat as
-- CONTINUOUS.
pub data CountMode : Type 0 where
  continuous once cycle oscillate other : CountMode

-- The fields of a counter. `input` is the value of the parameter that `count` is bound to, if any.
pub record Counter : Type 0 where
  pub cb : Callbacks
  pub running : Bool
  pub forward : Bool
  pub start : ℤ
  pub end : ℤ
  pub count_mode : CountMode
  pub multiplier : ℤ
  pub count : ℤ
  pub input : Option ℤ
  pub old_count : ℤ

-- The local variables of `advance`.
pub record Sweep : Type 0 where
  pub cb : Callbacks
  pub queue : List ℕ
  pub old_count : ℤ
  pub new_count : ℤ
  pub direction : Bool
  pub running : Bool

-- The getter of the bound or free parameter `count`.
pub count_value : Counter → ℤ
count_value c = elim c.input [ none ↦ c.count | some v ↦ v ]

pub set_count : ℤ → Counter → Counter
set_count value c = record c {
  cb = record c.cb { next_callback = none; prev_callback = 0 };
  count = value;
  old_count = value;
}

pub reset : Counter → Counter
unfolding set_count
reset c = set_count (if c.forward then c.start else c.end) c

pub fire : ℤ → ℤ → Sweep → Sweep
fire s e t =
    let (cb, queue) = call_callbacks s e t.cb t.queue in record t { cb = cb; queue = queue }

-- The comparisons and moves that the mirrored branches of `advance` share: upward or downward.
abbrev pub reached : Bool → ℤ → ℤ → Bool
reached up n bound = if up then leb_ℤ bound n else leb_ℤ n bound

abbrev pub ahead : Bool → ℤ → ℤ → ℤ
ahead up n d = if up then n +ℤ d else n -ℤ d

-- How far a bound lies ahead.
abbrev pub gap : Bool → ℤ → ℤ → ℤ
gap up n bound = if up then bound -ℤ n else n -ℤ bound

-- The branch ONCE: stop at the bound.
pub once_at : Bool → ℤ → Sweep → Sweep
once_at up bound t =
    if reached up t.new_count bound then record t { new_count = bound; running = false } else t

-- The loop of the branch CYCLE: from `bound` go on at `restart`. `stop` is the test
-- `period == 0.0`, which the two branches with a negative period lack. `none`: out of fuel.
pub cycle_loop : ℕ → Bool → Bool → (bound restart period : ℤ) → Sweep → Option Sweep
unfolding fire
cycle_loop zero stop up bound restart period t = none
cycle_loop (suc fuel) stop up bound restart period t =
    let t' = fire t.old_count bound t in
    let rest =
      cycle_loop fuel stop up bound restart period
        (record t' { old_count = restart; new_count = ahead (not up) t.new_count period }) in
    if reached up t.new_count bound then (if stop then some t' else rest) else some t

-- The loop of the branch OSCILLATE. `d` is what is left to go, |delta|; the walk is first towards
-- `near` and after the turn towards `far`.
pub oscillate_loop : ℕ → Bool → Bool → (near far d : ℤ) → Sweep → Option Sweep
unfolding fire
oscillate_loop zero stop up near far d t = none
oscillate_loop (suc fuel) stop up near far d t =
    let new_count = ahead up t.old_count d in
    let turned = record (fire t.old_count near t) {
      old_count = near;
      new_count = near;
      direction = not t.direction;
    } in
    let left = d -ℤ gap up t.old_count near in
    let back = ahead (not up) near left in
    let again = record (fire near far turned) {
      old_count = far;
      new_count = far;
      direction = not turned.direction;
    } in
    let rest = oscillate_loop fuel stop up near far (left -ℤ gap (not up) near far) again in
    if ltb_ℤ (pos 0) d
    then (if reached up new_count near
        then (if leb_ℤ left (pos 0) || stop
            then some turned
            else if reached (not up) back far
            then rest
            else some (record turned { new_count = back }))
        else some (record t { new_count = new_count }))
    else some t

-- The `switch (mode)` of each of the four branches; `walk` is |delta|.
pub sweep_mode :
    ℕ → CountMode → Bool → Bool → (bound restart period walk : ℤ) → Sweep → Option Sweep
unfolding once_at cycle_loop oscillate_loop
sweep_mode fuel once stop up bound restart period walk t = some (once_at up bound t)
sweep_mode fuel cycle stop up bound restart period walk t =
    cycle_loop fuel stop up bound restart period t
sweep_mode fuel oscillate stop up bound restart period walk t =
    oscillate_loop fuel stop up bound restart walk t
sweep_mode fuel continuous stop up bound restart period walk t = some t
sweep_mode fuel other stop up bound restart period walk t = some t

-- What follows each switch: `callCallbacks_` for the last stretch, and the new count.
pub settle : Counter → Option Sweep → Option (Counter × List ℕ)
unfolding fire
settle c none = none
settle c (some t) =
    let t' = fire t.old_count t.new_count t in
    some (
      record c {
        cb = t'.cb;
        running = t'.running;
        forward = t'.direction;
        count = t'.new_count;
        old_count = t'.old_count;
      },
      t'.queue,
    )

abbrev pub sweep : Counter → ℤ → ℤ → Sweep
sweep c old_count new_count = record {
  cb = c.cb;
  queue = [];
  old_count = old_count;
  new_count = new_count;
  direction = c.forward;
  running = c.running;
}

-- The branches for a start that is not above the end, by the sign of delta.
pub advance_up : ℕ → (old_count delta period : ℤ) → Counter → Option (Counter × List ℕ)
unfolding settle sweep_mode
advance_up fuel old_count delta period c = settle c (
    sweep_mode fuel c.count_mode (eqb_ℤ period (pos 0)) true c.end c.start period delta
      (sweep c old_count (old_count +ℤ delta)))

pub advance_down : ℕ → (old_count delta period : ℤ) → Counter → Option (Counter × List ℕ)
unfolding settle sweep_mode
advance_down fuel old_count delta period c = settle c (
    sweep_mode fuel c.count_mode (eqb_ℤ period (pos 0)) false c.start c.end period (pos 0 -ℤ delta)
      (sweep c old_count (old_count +ℤ delta)))

-- The branches for a start above the end; `period` has been negated.
pub advance_falling : ℕ → (old_count delta period : ℤ) → Counter → Option (Counter × List ℕ)
unfolding settle sweep_mode
advance_falling fuel old_count delta period c = settle c (
    sweep_mode fuel c.count_mode false false c.end c.start period delta
      (sweep c old_count (old_count -ℤ delta)))

pub advance_rising : ℕ → (old_count delta period : ℤ) → Counter → Option (Counter × List ℕ)
unfolding settle sweep_mode
advance_rising fuel old_count delta period c = settle c (
    sweep_mode fuel c.count_mode false true c.start c.end period (pos 0 -ℤ delta)
      (sweep c old_count (old_count -ℤ delta)))

-- `delta`, signed by the direction.
unfoldable pub delta_of : ℤ → Counter → ℤ
delta_of amount c = (if c.forward then amount else pos 0 -ℤ amount) *ℤ c.multiplier

-- A counter whose count is bound to another parameter calls back for what that one has moved.
advance_bound : Counter → Counter × List ℕ
unfolding count_value
advance_bound c =
    let old_count = count_value c in
    let (cb, queue) = call_callbacks c.old_count old_count c.cb [] in
    (record c { cb = cb; old_count = old_count }, queue)

advance_free : ℕ → ℤ → Counter → Option (Counter × List ℕ)
unfolding count_value delta_of advance_up advance_down advance_falling advance_rising
advance_free fuel amount c =
    let old_count = count_value c in
    let delta = delta_of amount c in
    let period = c.end -ℤ c.start in
    if leb_ℤ (pos 0) period
    then (if leb_ℤ (pos 0) delta
        then advance_up fuel old_count delta period c
        else advance_down fuel old_count delta period c)
    else if ltb_ℤ (pos 0) delta
    then advance_falling fuel old_count delta (pos 0 -ℤ period) c
    else if ltb_ℤ delta (pos 0)
    then advance_rising fuel old_count delta (pos 0 -ℤ period) c
    else some (record c { old_count = old_count }, [])

-- `advance` without the calls of the queued functions at its end: the counter and the queue.
unfoldable pub advance : ℕ → ℤ → Counter → Option (Counter × List ℕ)
unfolding advance_bound advance_free
advance fuel amount c = elim c.input [
  | none ↦ advance_free fuel amount c
  | some v ↦ some (advance_bound c)
]
