-- ===== src/Curve/Evaluate.antt =====
-- `Curve.evaluate` of o3d-webgl/curve.js.
pub mod Between
pub mod Moved
pub mod Total
use toolbox.Base.{
  ℕ, zero, suc, ◌+◌, ◌-◌, ◌*◌, ◌/◌, ◌%◌, ◌≡◌, Bool, true, false, not, Option, none, some, List, [],
  ◌∷◌, ◌++◌, if◌then◌else◌, length, get_elem?,
}
use toolbox.Base.Int.{ℤ, pos, negsuc, ltb_ℤ, leb_ℤ, ◌+ℤ◌, ◌-ℤ◌, ◌*ℤ◌, pos_part, nat_abs}
use toolbox.Curve.Keys.{
  CurveKey, Curve, Outputs, Infinity, constant, linear, cycle, cycle_relative, oscillate, invalid,
  update_curve_info,
}
use toolbox.Curve.Search.{
  Context, Message, Reading, last_key, get_output_in_span, invalid_pre_infinity,
  invalid_post_infinity,
}

-- `Math.ceil(a / b)` and `Math.floor(a / b)` of an `a` that is not negative and a positive `b`.
abbrev pub ceil_div : ℤ → ℤ → ℤ
ceil_div a b = pos ((pos_part a + pos_part b - 1) / pos_part b)

abbrev pub floor_div : ℤ → ℤ → ℤ
floor_div a b = pos (pos_part a / pos_part b)

-- `a % b` with the sign of `a`, for a positive `b`.
abbrev pub rem : ℤ → ℤ → ℤ
rem (pos n) b = pos (n % pos_part b)
rem (negsuc n) b = pos 0 -ℤ pos (suc n % pos_part b)

abbrev pub abs : ℤ → ℤ
abs a = pos (nat_abs a)

-- The value is known, or it is the one at another input, with an offset.
pub data Adjusted (Output : Type 0) : Type 0 where
  done : Output → List Message → Adjusted Output
  go_on : ℤ → Output → Adjusted Output

module _ (o : Outputs) where
  open o use {Output, of_ℤ, add, sub, mul, div}

  -- The cases of `preInfinity`, for an input before the start.
  unfoldable pub pre_adjust : Infinity → (first second last : CurveKey Output) → ℤ → Adjusted Output
  pre_adjust infinity first second last input =
      let input_span = last.input -ℤ first.input in
      let output_delta = sub last.output first.output in
      let offset = first.input -ℤ input in
      let wrap = λ (n : ℤ). first.input +ℤ rem (n -ℤ first.input) input_span in
      let cycle_count = ceil_div offset input_span in
      let turn_count = ceil_div offset (pos 2 *ℤ input_span) in
      if leb_ℤ input_span (pos 0) then done first.output [] else elim infinity [
        | constant ↦ done first.output []
        | linear ↦
            let input_delta = second.input -ℤ first.input in
            if ltb_ℤ (pos 0) input_delta
            then done
                (sub first.output
                  (div (mul (of_ℤ offset) (sub second.output first.output)) (of_ℤ input_delta)))
                []
            else done first.output []
        | cycle ↦ go_on (wrap (input +ℤ cycle_count *ℤ input_span)) (of_ℤ (pos 0))
        | cycle_relative ↦
            go_on (wrap (input +ℤ cycle_count *ℤ input_span))
              (sub (of_ℤ (pos 0)) (mul (of_ℤ cycle_count) output_delta))
        | oscillate ↦
            go_on (last.input -ℤ abs (input +ℤ turn_count *ℤ (pos 2 *ℤ input_span) -ℤ last.input))
              (of_ℤ (pos 0))
        | invalid ↦ done first.output (invalid_pre_infinity ∷ [])
      ]

  -- The cases of `postInfinity`, for an input at the end or past it.
  unfoldable pub post_adjust :
      Infinity → (first before_last last : CurveKey Output) → ℤ → Adjusted Output
  post_adjust infinity first before_last last input =
      let input_span = last.input -ℤ first.input in
      let output_delta = sub last.output first.output in
      let offset = input -ℤ last.input in
      let wrap = λ (n : ℤ). first.input +ℤ rem (n -ℤ first.input) input_span in
      let cycle_count = ceil_div offset input_span in
      let relative_count = floor_div (input -ℤ first.input) input_span in
      let turn_count = ceil_div offset (pos 2 *ℤ input_span) in
      if leb_ℤ input_span (pos 0) then done last.output [] else elim infinity [
        | constant ↦ done last.output []
        | linear ↦
            let input_delta = last.input -ℤ before_last.input in
            if ltb_ℤ (pos 0) input_delta
            then done
                (add last.output
                  (div (mul (of_ℤ offset) (sub last.output before_last.output)) (of_ℤ input_delta)))
                []
            else done last.output []
        | cycle ↦ go_on (wrap (input -ℤ cycle_count *ℤ input_span)) (of_ℤ (pos 0))
        | cycle_relative ↦
            go_on (wrap (input -ℤ relative_count *ℤ input_span))
              (add (of_ℤ (pos 0)) (mul (of_ℤ relative_count) output_delta))
        | oscillate ↦
            go_on (first.input +ℤ abs (input -ℤ turn_count *ℤ (pos 2 *ℤ input_span) -ℤ first.input))
              (of_ℤ (pos 0))
        | invalid ↦ done last.output (invalid_post_infinity ∷ [])
      ]

  unfoldable pub adjust :
      (pre_infinity post_infinity : Infinity)
      → (first second before_last last : CurveKey Output) → ℤ
      → Adjusted Output
  unfolding pre_adjust post_adjust
  adjust pre_infinity post_infinity first second before_last last input =
      if ltb_ℤ input first.input
      then pre_adjust pre_infinity first second last input
      else if leb_ℤ last.input input
      then post_adjust post_infinity first before_last last input
      else go_on input (of_ℤ (pos 0))

  module _ (bezier_output : CurveKey Output → ℤ → CurveKey Output → Output) where
    -- The end of `evaluate`, at an input between the first and the last key.
    unfoldable pub finish :
        List (CurveKey Output)
        → (last : CurveKey Output) → Context
        → Adjusted Output
        → Option (Reading Output)
    finish keys last context (done value messages) =
        some (record { value = value; context = context; messages = messages })
    finish keys last context (go_on input offset) =
        if leb_ℤ last.input input
        then some (record { value = add last.output offset; context = context; messages = [] })
        else elim (get_output_in_span o bezier_output keys input context) [
          | none ↦ none
          | some r ↦ some (record r { value = add r.value offset })
        ]

    -- `evaluate` of two keys or more, behind `updateCurveInfo_`.
    unfoldable pub evaluate_keys :
        (pre_infinity post_infinity : Infinity)
        → List (CurveKey Output)
        → ℤ
        → Context
        → Option (Reading Output)
    unfolding adjust finish
    evaluate_keys pre_infinity post_infinity keys input context = elim (get_elem? keys 0) [
      | none ↦ none
      | some first ↦ elim (get_elem? keys 1) [
        | none ↦ none
        | some second ↦ elim (get_elem? keys (length keys - 2)) [
          | none ↦ none
          | some before_last ↦ elim (last_key keys) [
            | none ↦ none
            | some last ↦
                finish keys last context
                  (adjust pre_infinity post_infinity first second before_last last input)
          ]
        ]
      ]
    ]

    unfoldable pub evaluate_sorted :
        Curve Output → List (CurveKey Output) → ℤ → Context → Option (Reading Output)
    unfolding evaluate_keys
    evaluate_sorted c [] input context =
        some (record { value = of_ℤ (pos 0); context = context; messages = [] })
    evaluate_sorted c (k ∷ []) input context =
        some (record { value = k.output; context = context; messages = [] })
    evaluate_sorted c (k ∷ l ∷ ls) input context =
        evaluate_keys c.pre_infinity c.post_infinity (update_curve_info o c).keys input context

    -- The reading of `evaluate`; the curve is left as `after_evaluate` says.
    unfoldable pub evaluate : Curve Output → ℤ → Context → Option (Reading Output)
    unfolding evaluate_sorted
    evaluate c input context = evaluate_sorted c c.keys input context

  left_behind : Curve Output → List (CurveKey Output) → Curve Output
  left_behind c [] = c
  left_behind c (k ∷ []) = c
  left_behind c (k ∷ l ∷ ls) = update_curve_info o c

  -- The curve after a call of `evaluate`: sorted, if it has two keys or more.
  unfoldable pub after_evaluate : Curve Output → Curve Output
  unfolding left_behind
  after_evaluate c = left_behind c c.keys
