-- ===== src/Curve/Search.antt =====
-- `getOutputInSpan_` of o3d-webgl/curve.js: the search for the key that covers an input. `none` is a
-- read beyond the array, which throws, or a loop out of fuel.
pub mod Spans
pub mod Found
pub mod Covering
use toolbox.Base.{
  ℕ, zero, suc, ◌+◌, ◌-◌, ◌/◌, ◌≡◌, Bool, true, false, not, ◌&&◌, ◌||◌, Option, none, some, List,
  [], ◌∷◌, ◌++◌, ◌==◌, if◌then◌else◌, length, ltb, leb, get_elem?,
}
use toolbox.Base.Int.{ℤ, pos, ltb_ℤ, leb_ℤ, eqb_ℤ, ◌-ℤ◌}
use toolbox.Curve.Keys.{CurveKey, Outputs, get_output_at_offset}

-- The context of an evaluation: none is given, or one that remembers no index yet, or an index.
pub data Context : Type 0 where
  absent fresh : Context
  at : ℕ → Context

-- The messages of the calls of `error_callback`.
pub data Message : Type 0 where
  below_all_keys outside_range next_key_null invalid_pre_infinity invalid_post_infinity : Message

module _ {Output : Type 0} (keys : List (CurveKey Output)) (input : ℤ) where
  -- `keys[i].input <= input && keys[i + 1].input > input`, which reads the second key only if the
  -- first test holds.
  unfoldable pub between : ℕ → Option Bool
  between i = elim (get_elem? keys i) [
    | none ↦ none
    | some k ↦ elim (leb_ℤ k.input input) [
      | false ↦ some false
      | true ↦ elim (get_elem? keys (suc i)) [
        | none ↦ none
        | some next ↦ some (ltb_ℤ input next.input)
      ]
    ]
  ]

  -- The loops forward and backward over a few keys, on the rounds left: the index found, if any.
  pub search_forward : ℕ → ℕ → Option (Option ℕ)
  unfolding between
  search_forward zero i = some none
  search_forward (suc rounds) i =
      let rest = search_forward rounds (suc i) in
      elim (between i) [ none ↦ none | some true ↦ some (some i) | some false ↦ rest ]

  -- `i` is the source's index plus one.
  pub search_backward : ℕ → ℕ → Option (Option ℕ)
  unfolding between
  search_backward zero i = some none
  search_backward (suc rounds) zero = some none
  search_backward (suc rounds) (suc i) =
      let rest = search_backward rounds i in
      elim (between i) [ none ↦ none | some true ↦ some (some i) | some false ↦ rest ]

  -- The search from the index that the context remembers; `kKeysToSearch` is 3.
  pub search_near : ℕ → Option (Option ℕ)
  unfolding between search_forward search_backward
  search_near key_index =
      let end = length keys in
      let check_end = (if ltb end (key_index + 3) then end else key_index + 3) in
      let check_start : ℕ = key_index - 3 in
      let forward = search_forward (check_end - suc key_index) (suc key_index) in
      let backward = search_backward (key_index - check_start) key_index in
      if ltb key_index (end - 1)
      then elim (between key_index) [
        | none ↦ none
        | some true ↦ some (some key_index)
        | some false ↦ elim (get_elem? keys key_index) [
          | none ↦ none
          | some k ↦
              if ltb_ℤ k.input input
              then forward
              else if ltb 0 key_index
              then backward
              else some none
        ]
      ]
      else some none

  -- `while (start <= end)`: the first of the two loops without a context.
  pub bisect : ℕ → ℕ → ℕ → Option ℕ
  bisect zero start end = none
  bisect (suc fuel) start end =
      let mid = (start + end) / 2 in
      let upper = bisect fuel (mid + 1) end in
      let lower = bisect fuel start (mid - 1) in
      if leb start end
      then elim (get_elem? keys mid) [
        | none ↦ none
        | some k ↦ if ltb_ℤ k.input input then upper else if mid == 0 then some start else lower
      ]
      else some start

  -- The second loop, forward to the first key past the input; on the rounds left.
  pub scan : ℕ → ℕ → ℕ
  scan zero start = start
  scan (suc rounds) start =
      let rest = scan rounds (suc start) in
      elim (get_elem? keys start) [
        | none ↦ start
        | some k ↦ if ltb_ℤ input k.input then start else rest
      ]

  -- The second loop from where the first one ended, and the test behind it.
  pub scan_from : ℕ → ℕ × List Message
  unfolding scan
  scan_from middle =
      let end = length keys in
      let start = scan (end - middle) middle in
      (start, if start == 0 || leb end start then outside_range ∷ [] else [])

  -- Both loops; `bisect` has the number of keys plus 2 as its fuel.
  pub search_all : Option (ℕ × List Message)
  unfolding bisect scan_from
  search_all = elim (bisect (length keys + 2) 0 (length keys)) [
    | none ↦ none
    | some middle ↦ some (scan_from middle)
  ]

  -- The key index, with the messages on the way. The index -1 of the source, `start - 1` at 0, is
  -- `none` here, as it leads to a read beyond the array.
  pub find_key_index : Context → Option (ℕ × List Message)
  unfolding search_near search_all
  find_key_index context =
      let all : Option (ℕ × List Message) = elim search_all [
        | none ↦ none
        | some (zero, messages) ↦ none
        | some (suc i, messages) ↦ some (i, messages)
      ] in
      elim context [
        | absent ↦ all
        | fresh ↦ all
        | at key_index ↦ elim (search_near key_index) [
          | none ↦ none
          | some (some i) ↦ some (i, [])
          | some none ↦ all
        ]
      ]

-- What the function gives, and what the context remembers now.
pub record Reading (Output : Type 0) : Type 0 where
  pub value : Output
  pub context : Context
  pub messages : List Message

abbrev pub last_key : {Output : Type 0} → List (CurveKey Output) → Option (CurveKey Output)
last_key keys = get_elem? keys (length keys - 1)

module _ (o : Outputs) (bezier_output : CurveKey o.Output → ℤ → CurveKey o.Output → o.Output) where
  open o use {Output, of_ℤ}

  -- The end of `getOutputInSpan_`, at the key that was found.
  pub output_at : List (CurveKey Output) → ℤ → Context → ℕ × List Message → Option (Reading Output)
  output_at keys input context (i, messages) =
      let context' : Context = elim context [ absent ↦ absent | _ ↦ at i ] in
      elim (get_elem? keys i) [
        | none ↦ none
        | some key ↦ elim (get_elem? keys (suc i)) [
          | none ↦ some (record {
            value = key.output;
            context = context';
            messages = messages ++ next_key_null ∷ [];
          })
          | some next ↦ some (record {
            value = get_output_at_offset o bezier_output key (input -ℤ key.input) next;
            context = context';
            messages = messages;
          })
        ]
      ]

  unfoldable pub get_output_in_span : List (CurveKey Output) → ℤ → Context → Option (Reading Output)
  unfolding find_key_index output_at
  get_output_in_span keys input context = elim (get_elem? keys 0) [
    | none ↦ none
    | some first ↦ elim (last_key keys) [
      | none ↦ none
      | some last ↦
          let found = elim (find_key_index keys input context) as (λ _. Option (Reading Output)) [
            | none ↦ none
            | some f ↦ output_at keys input context f
          ] in
          if ltb_ℤ input first.input
          then some
              (record { value = of_ℤ (pos 0); context = context; messages = below_all_keys ∷ [] })
          else if leb_ℤ last.input input
          then some (record { value = last.output; context = context; messages = [] })
          else found
    ]
  ]
