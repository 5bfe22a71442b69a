-- ===== src/Curve/Tests.antt =====
-- Curves over integers: runs at concrete keys, and the theorems at them.
use toolbox.Base.{
  false, ◌⊎◌, ℕ, ◌≡◌, refl, sym, arith, zero, suc, Option, none, some, List, [], ◌∷◌, true,
}
use toolbox.Base.Int.{ℤ, pos, negsuc, ◌+ℤ◌, ◌-ℤ◌, ◌*ℤ◌, eqb_ℤ, eqb_ℤ_self, eq_of_eqb_ℤ, ◌≤ℤ◌, ◌<ℤ◌}
use toolbox.Curve.Keys.{
  is_discontinuous, CurveKey, Curve, Outputs, cycle, oscillate, new_key, new_curve, step,
  create_key, add_linear_keys, update_curve_info, get_output_at_offset, add_step_keys,
}
use toolbox.Curve.Search.{Context, absent, get_output_in_span}
use toolbox.Curve.Search.Spans.{IsSorted, Spans}
use toolbox.Curve.Search.Covering.{Covers, remembers, get_output_in_span-Spans}
use toolbox.Curve.Sorted.{FlagHolds, keys_at, update_curve_info-IsSorted}
use toolbox.Curve.Evaluate.{evaluate, adjust, go_on, Adjusted}
use toolbox.Curve.Evaluate.Between.{Before, After}
use toolbox.Curve.Evaluate.Moved.{adjust-Moved}
use toolbox.Curve.Evaluate.Total.{Reads, evaluate-Reads}
use toolbox.Curve.Edits.{
  Edit, standing, gone, create, add_linear, move, destroy, update, run, set_input, destroy_key,
}
use toolbox.Curve.Edits.Counted.{CountsSteps, count_steps, stales, run-CountsSteps}
use toolbox.Curve.Jumps.{SameLaws, Mixed, Jump, Smooth, is_discontinuous-Jump}
use toolbox.Curve.FunctionEval.{new_function_eval, read_all, lagging, update_outputs-lagging}
use mathlib.Core.Option.{some-injective}

abbrev integers : Outputs
integers = record {
  Output = ℤ;
  of_ℤ = (λ n. n);
  add = (λ a b. a +ℤ b);
  sub = (λ a b. a -ℤ b);
  mul = (λ a b. a *ℤ b);
  div = (λ a b. a);
  same = (λ a b. eqb_ℤ a b);
}

abbrev no_bezier : CurveKey ℤ → ℤ → CurveKey ℤ → ℤ
no_bezier k offset next = k.output

abbrev start_key : CurveKey ℤ
start_key = new_key integers step (pos 0) (pos 5)

abbrev end_key : CurveKey ℤ
end_key = new_key integers step (pos 10) (pos 7)

abbrev two_keys : List (CurveKey ℤ)
two_keys = start_key ∷ end_key ∷ []

abbrev stepped : Curve ℤ
stepped =
    record (add_step_keys integers ((pos 10, pos 7) ∷ (pos 0, pos 5) ∷ []) (new_curve integers)) {
      post_infinity = oscillate;
    }

keys-stepped : (update_curve_info integers stepped).keys ≡ two_keys
unfolding update_curve_info add_step_keys
keys-stepped = refl

evaluate-stepped :
    evaluate integers no_bezier stepped (pos 25) absent
    ≡ some (record { value = pos 5; context = absent; messages = [] })
unfolding evaluate update_curve_info add_step_keys get_output_in_span get_output_at_offset adjust
    ◌+ℤ◌ ◌-ℤ◌ ◌*ℤ◌
evaluate-stepped = refl

two_keys-IsSorted : IsSorted two_keys
two_keys-IsSorted zero zero k l e f le =
    rw (sym (some-injective start_key k e), sym (some-injective start_key l f)) (omega arith)
two_keys-IsSorted zero (suc zero) k l e f le =
    rw (sym (some-injective start_key k e), sym (some-injective end_key l f)) (omega arith)
two_keys-IsSorted zero (suc (suc j)) k l e f le = cc
two_keys-IsSorted (suc zero) zero k l e f le = absurd (omega arith)
two_keys-IsSorted (suc zero) (suc zero) k l e f le =
    rw (sym (some-injective end_key k e), sym (some-injective end_key l f)) (omega arith)
two_keys-IsSorted (suc zero) (suc (suc j)) k l e f le = cc
two_keys-IsSorted (suc (suc i)) j k l e f le = cc

two_keys-Covers : Covers two_keys (pos 4)
two_keys-Covers = record {
  sorted = two_keys-IsSorted;
  first = start_key;
  at_first = refl;
  not_past = omega arith;
  ends = (end_key, refl, omega arith);
}

get_output_in_span-Spans_example :
    (i : ℕ) × (spans : Spans two_keys (pos 4) i) × ((context : Context)
      → get_output_in_span integers no_bezier two_keys (pos 4) context
        ≡ some (record {
          value = get_output_at_offset integers no_bezier spans.0 (pos 4 -ℤ spans.0.input) spans.1;
          context = remembers context i;
          messages = [];
        }))
get_output_in_span-Spans_example =
    get_output_in_span-Spans integers no_bezier two_keys (pos 4) two_keys-Covers

stepped-FlagHolds : FlagHolds integers stepped
unfolding add_step_keys
stepped-FlagHolds e = cc

update_curve_info-IsSorted_example :
    IsSorted (update_curve_info integers stepped).keys
    × ((input : ℤ)
        → keys_at input (update_curve_info integers stepped).keys ≡ keys_at input stepped.keys)
    × ((update_curve_info integers stepped).sorted ≡ true)
update_curve_info-IsSorted_example = update_curve_info-IsSorted integers stepped stepped-FlagHolds

evaluate-Reads_example : Reads (evaluate integers no_bezier stepped (pos 25))
evaluate-Reads_example = evaluate-Reads integers no_bezier stepped (pos 25) stepped-FlagHolds

abbrev moved : Adjusted ℤ
moved = adjust integers cycle oscillate start_key end_key start_key end_key (pos 25)

adjust-Moved_example :
    (pos 25 <ℤ pos 0 → Before integers start_key end_key (pos 25) cycle moved)
    × (pos 10 ≤ℤ pos 25 → After integers start_key end_key (pos 25) oscillate moved)
    × (pos 0 ≤ℤ pos 25 → pos 25 <ℤ pos 10 → moved ≡ go_on (pos 25) (pos 0))
adjust-Moved_example =
    adjust-Moved integers cycle oscillate start_key end_key start_key end_key (pos 25) (omega arith)

abbrev or_zero : Option ℤ → ℤ
or_zero none = pos 0
or_zero (some i) = i

update_outputs-lagging_example :
    read_all or_zero new_function_eval (pos 3 ∷ pos 8 ∷ pos 8 ∷ [])
    ≡ lagging or_zero [] (pos 3 ∷ pos 8 ∷ pos 8 ∷ [])
update_outputs-lagging_example = update_outputs-lagging or_zero (pos 3 ∷ pos 8 ∷ pos 8 ∷ [])

lagging_run :
    lagging or_zero [] (pos 3 ∷ pos 8 ∷ pos 8 ∷ [])
    ≡ some (pos 0) ∷ some (pos 3) ∷ some (pos 3) ∷ []
lagging_run = refl

-- A step key is destroyed twice.
abbrev edits : List (Edit integers)
edits =
    create step
    ∷ add_linear ((pos 4, pos 1) ∷ [])
    ∷ move (standing 0) (pos 9)
    ∷ update
    ∷ destroy (standing 1)
    ∷ destroy (gone start_key)
    ∷ []

num_steps-edits : (run integers edits (new_curve integers)).num_step_keys ≡ negsuc 0
unfolding run create_key add_linear_keys set_input destroy_key update_curve_info ◌+ℤ◌ ◌-ℤ◌
num_steps-edits = refl

run-CountsSteps_example :
    ((run integers edits (new_curve integers)).num_step_keys +ℤ pos (stales integers edits)
      ≡ pos (count_steps integers (run integers edits (new_curve integers)).keys))
    × (stales integers edits ≡ 0 → CountsSteps integers (run integers edits (new_curve integers)))
run-CountsSteps_example = run-CountsSteps integers edits (new_curve integers) refl

same_eqb_ℤ : SameLaws integers
same_eqb_ℤ = record { same_refl = eqb_ℤ_self; same_trans = (λ x y z h g. rw (eq_of_eqb_ℤ x y h) g) }

abbrev unchecked : Curve ℤ
unchecked = record stepped { check_discontinuity = true }

unchecked-FlagHolds : FlagHolds integers unchecked
unfolding add_step_keys
unchecked-FlagHolds e = cc

unchecked-CountsSteps : CountsSteps integers unchecked
unfolding add_step_keys ◌+ℤ◌
unchecked-CountsSteps = refl

is_discontinuous-Jump_example :
    (is_discontinuous integers unchecked ≡ true
      → Mixed integers (update_curve_info integers unchecked).keys
        ⊎ Jump integers (update_curve_info integers unchecked).keys)
    × (is_discontinuous integers unchecked ≡ false
        → (Mixed integers (update_curve_info integers unchecked).keys → ⊥)
          × Smooth integers (update_curve_info integers unchecked).keys)
is_discontinuous-Jump_example =
    is_discontinuous-Jump integers unchecked same_eqb_ℤ unchecked-FlagHolds unchecked-CountsSteps
      refl
