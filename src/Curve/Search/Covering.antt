-- ===== src/Curve/Search/Covering.antt =====
-- `getOutputInSpan_` of o3d-webgl/curve.js with each of its contexts.
use toolbox.Base.{
  ℕ, zero, suc, ◌-◌, ◌≡◌, refl, ◌∙◌, false, Option, none, some, List, [], ltb, length, get_elem?,
  Bool-cases, inl, inr, arith,
}
use toolbox.Base.Int.{ℤ, ltb_ℤ, leb_ℤ, ◌-ℤ◌, ◌≤ℤ◌, ◌<ℤ◌}
use toolbox.Curve.Keys.{CurveKey, Outputs, get_output_at_offset}
use toolbox.Curve.Search.{
  Context, absent, fresh, at, Message, search_near, search_all, find_key_index, get_output_in_span,
  Reading, output_at,
}
use toolbox.Curve.Search.Spans.{IsSorted, Spans, EndsPast, Found, search_near-Found}
use toolbox.Curve.Search.Found.{search_all-Spans}

module _ {Output : Type 0} (keys : List (CurveKey Output)) where
  -- Sorted keys have one span at most that holds an input.
  Spans-unique :
      (input : ℤ) (i j : ℕ) → IsSorted keys → Spans keys input i → Spans keys input j → i ≡ j
  Spans-unique input i j sorted (k, next, e, e', le, past) (k', next', f, f', le', past') =
      elim (Bool-cases (ltb i j)) [
        | inl lt ↦ absurd (omega (arith, sorted (suc i) j next k' e' f (ground arith)))
        | inr ge ↦ elim (Bool-cases (ltb j i)) [
          | inl lt ↦ absurd (omega (arith, sorted (suc j) i next' k f' e (ground arith)))
          | inr ge' ↦ ground arith
        ]
      ]

-- The keys that a search may be over: sorted, the first one not past the input, the last one past.
pub record Covers {Output : Type 0} (keys : List (CurveKey Output)) (input : ℤ) : Type 0 where
  pub sorted : IsSorted keys
  pub first : CurveKey Output
  pub at_first : get_elem? keys 0 ≡ some first
  pub not_past : first.input ≤ℤ input
  pub ends : EndsPast keys input

module _ {Output : Type 0} {keys : List (CurveKey Output)} {input : ℤ} (v : Covers keys input) where
  open v use {sorted, first, at_first, not_past, ends}

  -- With any context the search finds the span.
  all_keys :
      (i : ℕ) × (◌≡◌ {A = Option (ℕ × List Message)}
        (elim (search_all keys input) [
          | none ↦ none
          | some (zero, messages) ↦ none
          | some (suc i, messages) ↦ some (i, messages)
        ])
        (some (i, [])))
      × Spans keys input i
  all_keys =
      let (i, e, spans) = search_all-Spans keys input ends sorted first at_first not_past in
      (i, rw e refl, spans)

  find_key_index-Spans :
      (context : Context)
      → (i : ℕ) × (find_key_index keys input context ≡ some (i, [])) × Spans keys input i
  unfolding find_key_index
  find_key_index-Spans absent = all_keys
  find_key_index-Spans fresh = all_keys
  find_key_index-Spans (at n) = go (search_near keys input n) (search_near-Found keys input ends n)
    where
      all : Option (ℕ × List Message)
      all = elim (search_all keys input) [
        | none ↦ none
        | some (zero, messages) ↦ none
        | some (suc i, messages) ↦ some (i, messages)
      ]

      go :
          (o : Option (Option ℕ))
          → Found keys input o
          → (i : ℕ) × (◌≡◌ {A = Option (ℕ × List Message)}
              (elim o [ none ↦ none | some (some i) ↦ some (i, []) | some none ↦ all ])
              (some (i, [])))
            × Spans keys input i
      go none f = absurd f
      go (some none) f = all_keys
      go (some (some i)) f = (i, refl, f)

not_below : (a b : ℤ) → a ≤ℤ b → ltb_ℤ b a ≡ false
not_below a b h = ground arith

below_last : (a b : ℤ) → a <ℤ b → leb_ℤ b a ≡ false
below_last a b h = ground arith

-- What the context remembers after a reading at key `i`.
abbrev pub remembers : Context → ℕ → Context
remembers absent i = absent
remembers fresh i = at i
remembers (at n) i = at i

module _ (o : Outputs) (bezier_output : CurveKey o.Output → ℤ → CurveKey o.Output → o.Output)
    (keys : List (CurveKey o.Output)) (input : ℤ) (context : Context) where
  abbrev reading : ℕ → (k next : CurveKey o.Output) → Option (Reading o.Output)
  reading i k next = some (record {
    value = get_output_at_offset o bezier_output k (input -ℤ k.input) next;
    context = remembers context i;
    messages = [];
  })

  output_at-reading :
      (i : ℕ) (k next : CurveKey o.Output)
      → get_elem? keys i ≡ some k
      → get_elem? keys (suc i) ≡ some next
      → output_at o bezier_output keys input context (i, []) ≡ reading i k next
  unfolding output_at
  output_at-reading i k next e e' = ground arith

  get_output_in_span-output_at :
      (i : ℕ) (first last : CurveKey o.Output)
      → get_elem? keys 0 ≡ some first
      → get_elem? keys (length keys - 1) ≡ some last
      → ltb_ℤ input first.input ≡ false
      → leb_ℤ last.input input ≡ false
      → find_key_index keys input context ≡ some (i, [])
      → get_output_in_span o bezier_output keys input context
        ≡ output_at o bezier_output keys input context (i, [])
  unfolding get_output_in_span
  get_output_in_span-output_at i first last e e' inside below found = ground arith

-- Over sorted keys, for an input that is not before the first key and is before the last,
-- `getOutputInSpan_` reads no key beyond the array, runs out of no loop and reports no error. There
-- is one span that holds the input, between two neighbours, and for every context, with whatever
-- index it remembers, the value is that of the earlier key at the distance from it. A context that
-- is there remembers the span.
pub get_output_in_span-Spans :
    (o : Outputs) (bezier_output : CurveKey o.Output → ℤ → CurveKey o.Output → o.Output)
    (keys : List (CurveKey o.Output)) (input : ℤ)
    → Covers keys input
    → (i : ℕ) × (spans : Spans keys input i) × ((context : Context)
        → get_output_in_span o bezier_output keys input context
          ≡ some (record {
            value = get_output_at_offset o bezier_output spans.0 (input -ℤ spans.0.input) spans.1;
            context = remembers context i;
            messages = [];
          }))
get_output_in_span-Spans o bezier_output keys input v =
    let (i, found, spans) = find_key_index-Spans v absent in
    (
      i,
      spans,
      λ context.
          let (j, found', spans') = find_key_index-Spans v context in
          let same : j ≡ i = Spans-unique keys input j i v.sorted spans' spans in
          get_output_in_span-output_at o bezier_output keys input context j v.first v.ends.0
            v.at_first v.ends.1 (not_below v.first.input input v.not_past)
            (below_last input v.ends.0.input v.ends.2) found'
          ∙ (rw same (
              output_at-reading o bezier_output keys input context i spans.0 spans.1 spans.2
                spans.3)),
    )
