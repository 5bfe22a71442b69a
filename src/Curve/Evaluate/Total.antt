-- ===== src/Curve/Evaluate/Total.antt =====
-- `Curve.evaluate` of o3d-webgl/curve.js as a whole.
use toolbox.Base.{
  ◌-◌, ◌≤◌, ◌≡◌, refl, ap, ◌∙◌, inl, inr, true, Bool-cases, arith, Option, some, List, [], ◌∷◌,
  length, get_elem?, get_elem?-some,
}
use toolbox.Base.Int.{ℤ, pos, ◌≤ℤ◌, leb_ℤ, ltb_ℤ, ◌-ℤ◌, -ℤ_parts, le_of_ltb_ℤ, lt_of_ltb_ℤ}
use toolbox.Curve.Keys.{
  CurveKey, Curve, Outputs, Infinity, constant, linear, cycle, cycle_relative, oscillate, invalid,
  update_curve_info, get_output_at_offset,
}
use toolbox.Curve.Sorted.{FlagHolds, update_curve_info-IsSorted, length-update_curve_info}
use toolbox.Curve.Search.{Context, Message, Reading}
use toolbox.Curve.Search.Spans.{IsSorted}
use toolbox.Curve.Search.Covering.{Covers, remembers, get_output_in_span-Spans}
use toolbox.Curve.Evaluate.{
  Adjusted, done, go_on, pre_adjust, post_adjust, adjust, finish, evaluate_keys, evaluate_sorted,
  evaluate,
}
use toolbox.Curve.Evaluate.Between.{Before, After}
use toolbox.Curve.Evaluate.Moved.{adjust-Moved}

-- One output and one list of messages, whatever the context.
abbrev pub Reads : {Output : Type 0} → (Context → Option (Reading Output)) → Type 0
Reads {Output = Output} read =
    (value : Output) × (messages : List Message) × ((context : Context)
      → (after : Context) × (read context
          ≡ some (record { value = value; context = after; messages = messages })))

module _ (o : Outputs) where
  open o use {Output, of_ℤ, add}

  -- The input did not fall before the first key.
  abbrev Kept : CurveKey Output → Adjusted Output → Type 0
  Kept first (done value messages) = Unit
  Kept first (go_on n offset) = first.input ≤ℤ n

  Before-Kept :
      (first last : CurveKey Output) (input : ℤ) (infinity : Infinity) (a : Adjusted Output)
      → Before o first last input infinity a
      → Kept first a
  Before-Kept first last input infinity (done value messages) h = tt
  Before-Kept first last input constant (go_on n offset) h = absurd h
  Before-Kept first last input linear (go_on n offset) h = absurd h
  Before-Kept first last input invalid (go_on n offset) h = absurd h
  Before-Kept first last input cycle (go_on n offset) h = h.0
  Before-Kept first last input cycle_relative (go_on n offset) h = h.0
  Before-Kept first last input oscillate (go_on n offset) h = h.0

  After-Kept :
      (first last : CurveKey Output) (input : ℤ) (infinity : Infinity) (a : Adjusted Output)
      → After o first last input infinity a
      → Kept first a
  After-Kept first last input infinity (done value messages) h = tt
  After-Kept first last input constant (go_on n offset) h = absurd h
  After-Kept first last input linear (go_on n offset) h = absurd h
  After-Kept first last input invalid (go_on n offset) h = absurd h
  After-Kept first last input cycle (go_on n offset) h = h.0
  After-Kept first last input cycle_relative (go_on n offset) h = h.0
  After-Kept first last input oscillate (go_on n offset) h = h.0

  flat_span : (a b : ℤ) → b ≤ℤ a → leb_ℤ (b -ℤ a) (pos 0) ≡ true
  flat_span a b h = ground (arith, -ℤ_parts b a)

  -- Keys at one input all give the output of an end.
  adjust-flat :
      (pre_infinity post_infinity : Infinity) (first second before_last last : CurveKey Output)
      (input : ℤ)
      → last.input ≤ℤ first.input
      → Kept first (adjust o pre_infinity post_infinity first second before_last last input)
  unfolding adjust pre_adjust post_adjust
  adjust-flat pre_infinity post_infinity first second before_last last input h =
      elim (Bool-cases (ltb_ℤ input first.input)) [
        | inl t ↦ rw (t, flat_span first.input last.input h) tt
        | inr f ↦
            let t : leb_ℤ last.input input ≡ true = ground arith in
            rw (f, t, flat_span first.input last.input h) tt
      ]

  adjust-Kept :
      (pre_infinity post_infinity : Infinity) (first second before_last last : CurveKey Output)
      (input : ℤ)
      → Kept first (adjust o pre_infinity post_infinity first second before_last last input)
  adjust-Kept pre_infinity post_infinity first second before_last last input =
      elim (Bool-cases (ltb_ℤ first.input last.input)) [
        | inr flat ↦
            adjust-flat pre_infinity post_infinity first second before_last last input
              (le_of_ltb_ℤ first.input last.input flat)
        | inl wide ↦
            let (before, after, inside) =
              adjust-Moved o pre_infinity post_infinity first second before_last last input
                (lt_of_ltb_ℤ first.input last.input wide) in
            elim (Bool-cases (ltb_ℤ input first.input)) [
              | inl t ↦
                  Before-Kept first last input pre_infinity _
                    (before (lt_of_ltb_ℤ input first.input t))
              | inr f ↦ elim (Bool-cases (ltb_ℤ input last.input)) [
                | inl t' ↦
                    rw (inside (le_of_ltb_ℤ input first.input f) (lt_of_ltb_ℤ input last.input t'))
                      (le_of_ltb_ℤ input first.input f)
                | inr f' ↦
                    After-Kept first last input post_infinity _
                      (after (le_of_ltb_ℤ input last.input f'))
              ]
            ]
      ]

module _ (o : Outputs) (bezier_output : CurveKey o.Output → ℤ → CurveKey o.Output → o.Output) where
  open o use {Output, of_ℤ, add}

  finish-Reads :
      (keys : List (CurveKey Output)) (first last : CurveKey Output) (a : Adjusted Output)
      → IsSorted keys
      → get_elem? keys 0 ≡ some first
      → get_elem? keys (length keys - 1) ≡ some last
      → Kept o first a
      → Reads (λ context. finish o bezier_output keys last context a)
  unfolding finish
  finish-Reads keys first last (done value messages) sorted e e' h =
      (value, messages, λ context. (context, refl))
  finish-Reads keys first last (go_on n offset) sorted e e' h =
      elim (Bool-cases (leb_ℤ last.input n)) [
        | inl t ↦ rw t (add last.output offset, [], λ context. (context, refl))
        | inr f ↦
            let covers : Covers keys n = record {
              sorted = sorted;
              first = first;
              at_first = e;
              not_past = h;
              ends = (last, e', ground arith);
            } in
            let (i, spans, reads) = get_output_in_span-Spans o bezier_output keys n covers in
            rw f (
              add (get_output_at_offset o bezier_output spans.0 (n -ℤ spans.0.input) spans.1)
                  offset,
              [],
              λ context. (remembers context i, rw (reads context) refl),
            )
      ]

  evaluate_keys-finish :
      (pre_infinity post_infinity : Infinity) (keys : List (CurveKey Output)) (input : ℤ)
      (context : Context) (first second before_last last : CurveKey Output)
      → get_elem? keys 0 ≡ some first
      → get_elem? keys 1 ≡ some second
      → get_elem? keys (length keys - 2) ≡ some before_last
      → get_elem? keys (length keys - 1) ≡ some last
      → evaluate_keys o bezier_output pre_infinity post_infinity keys input context
        ≡ finish o bezier_output keys last context
            (adjust o pre_infinity post_infinity first second before_last last input)
  unfolding evaluate_keys
  evaluate_keys-finish pre_infinity post_infinity keys input context first second before_last last e
        e' f f' =
      ground arith

  evaluate_keys-Reads :
      (pre_infinity post_infinity : Infinity) (keys : List (CurveKey Output)) (input : ℤ)
      → IsSorted keys
      → 2 ≤ length keys
      → Reads (evaluate_keys o bezier_output pre_infinity post_infinity keys input)
  evaluate_keys-Reads pre_infinity post_infinity keys input sorted size =
      let (first, e) = get_elem?-some keys 0 (omega arith) in
      let (second, e') = get_elem?-some keys 1 (omega arith) in
      let (before_last, f) = get_elem?-some keys (length keys - 2) (omega arith) in
      let (last, f') = get_elem?-some keys (length keys - 1) (omega arith) in
      let (value, messages, reads) =
        finish-Reads keys first last _ sorted e f'
          (adjust-Kept o pre_infinity post_infinity first second before_last last input) in
      (
        value,
        messages,
        λ context. (
          (reads context).0,
          evaluate_keys-finish pre_infinity post_infinity keys input context first second
                before_last last e e' f f'
              ∙ (reads context).1,
        ),
      )

  evaluate_sorted-Reads :
      (c : Curve Output) (keys : List (CurveKey Output)) (input : ℤ)
      → c.keys ≡ keys
      → FlagHolds o c
      → Reads (evaluate_sorted o bezier_output c keys input)
  unfolding evaluate_sorted
  evaluate_sorted-Reads c [] input e h = (_, _, λ context. (context, refl))
  evaluate_sorted-Reads c (k ∷ []) input e h = (_, _, λ context. (context, refl))
  evaluate_sorted-Reads c (k ∷ l ∷ ls) input e h =
      evaluate_keys-Reads c.pre_infinity c.post_infinity (update_curve_info o c).keys input
        (update_curve_info-IsSorted o c h).0
        (omega (arith, length-update_curve_info o c, ap length e))

  -- Where the flag `sorted` of the curve tells the truth, `evaluate` gives an output for every input
  -- and infinity mode, and throws for none: no read is beyond the keys and no loop runs on. Neither
  -- the output nor the messages depend on the context and on the index that it remembers.
  pub evaluate-Reads :
      (c : Curve Output) (input : ℤ) → FlagHolds o c → Reads (evaluate o bezier_output c input)
  unfolding evaluate
  evaluate-Reads c input h = evaluate_sorted-Reads c c.keys input refl h
