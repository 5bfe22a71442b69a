-- ===== src/Curve/Search/Spans.antt =====
-- The search of `getOutputInSpan_` around the index that its context remembers.
use toolbox.Base.{
  ℕ, zero, suc, ◌+◌, ◌-◌, ◌≤◌, ◌<◌, ◌≡◌, refl, sym, ◌∙◌, Bool, true, false, Option, none, some,
  List, ◌==◌, if◌then◌else◌, length, ltb, get_elem?, get_elem?-some, get_elem?-lt, Bool-cases,
  if-both, inl, inr, arith,
}
use mathlib.Core.Option.{some-injective}
use toolbox.Base.Int.{ℤ, ltb_ℤ, leb_ℤ, ◌≤ℤ◌, ◌<ℤ◌}
use toolbox.Curve.Keys.{CurveKey}
use toolbox.Curve.Search.{between, search_forward, search_backward, search_near}

module _ {Output : Type 0} (keys : List (CurveKey Output)) where
  -- The inputs of the keys do not fall.
  abbrev pub IsSorted : Type 0
  IsSorted =
      (i j : ℕ) (k l : CurveKey Output)
      → get_elem? keys i ≡ some k
      → get_elem? keys j ≡ some l
      → i ≤ j
      → k.input ≤ℤ l.input

  -- Key `i` is at the input or before it, and the next one is past it.
  abbrev pub Spans : ℤ → ℕ → Type 0
  Spans input i =
      (k : CurveKey Output) × (next : CurveKey Output) × (get_elem? keys i ≡ some k)
      × (get_elem? keys (suc i) ≡ some next)
      × (k.input ≤ℤ input)
      × (input <ℤ next.input)

  abbrev pub NotPast : ℤ → ℕ → Type 0
  NotPast input n =
      (i : ℕ) (k : CurveKey Output) → i < n → get_elem? keys i ≡ some k → k.input ≤ℤ input

  abbrev pub Found : ℤ → Option (Option ℕ) → Type 0
  Found input none = ⊥
  Found input (some none) = Unit
  Found input (some (some i)) = Spans input i

  -- The last key is past the input.
  abbrev pub EndsPast : ℤ → Type 0
  EndsPast input =
      (last : CurveKey Output) × (get_elem? keys (length keys - 1) ≡ some last)
      × (input <ℤ last.input)

module _ {Output : Type 0} (keys : List (CurveKey Output)) (input : ℤ)
    (ends : EndsPast keys input) where
  pub size_pos : 0 < length keys
  size_pos = omega (arith, get_elem?-lt keys (length keys - 1) ends.0 ends.1)

  -- A key that is not past the input is not the last.
  pub next_in_range :
      (i : ℕ) (k : CurveKey Output)
      → get_elem? keys i ≡ some k
      → k.input ≤ℤ input
      → suc i < length keys
  next_in_range i k e le = elim (Bool-cases (i == length keys - 1)) [
    | inl same ↦
        let eq : i ≡ length keys - 1 = ground arith in
        let k_last : k ≡ ends.0 = some-injective k ends.0 (sym e ∙ (rw eq ends.1)) in
        absurd (omega (arith, ends.2, rw k_last at le))
    | inr other ↦ ground (arith, get_elem?-lt keys i k e)
  ]

  between-true :
      (i : ℕ) (k next : CurveKey Output)
      → get_elem? keys i ≡ some k
      → get_elem? keys (suc i) ≡ some next
      → leb_ℤ k.input input ≡ true
      → between keys input i ≡ some (ltb_ℤ input next.input)
  unfolding between
  between-true i k next e e' le = ground arith

  between-false :
      (i : ℕ) (k : CurveKey Output)
      → get_elem? keys i ≡ some k
      → leb_ℤ k.input input ≡ false
      → between keys input i ≡ some false
  unfolding between
  between-false i k e past = ground arith

  -- The reads of a test at an index in range are in range.
  between-Spans :
      (i : ℕ)
      → i < length keys
      → (b : Bool) × (between keys input i ≡ some b) × (b ≡ true → Spans keys input i)
  between-Spans i h =
      let (k, e) = get_elem?-some keys i h in
      elim (Bool-cases (leb_ℤ k.input input)) [
        | inr past ↦ (false, between-false i k e past, λ f. cc)
        | inl le ↦
            let not_past : k.input ≤ℤ input = ground arith in
            let (next, e') = get_elem?-some keys (suc i) (next_in_range i k e not_past) in
            (
              ltb_ℤ input next.input,
              between-true i k next e e' le,
              λ lt. (k, next, e, e', not_past, ground arith),
            )
      ]

  -- One round of a search.
  Found-round :
      (i : ℕ) (o : Option Bool) (b : Bool) (rest : Option (Option ℕ))
      → o ≡ some b
      → (b ≡ true → Spans keys input i)
      → Found keys input rest
      → Found keys input (elim o [ none ↦ none | some true ↦ some (some i) | some false ↦ rest ])
  Found-round i o true rest e spans f = rw e (spans refl)
  Found-round i o false rest e spans f = rw e f

  search_forward-Found :
      (rounds i : ℕ)
      → rounds + i ≤ length keys
      → Found keys input (search_forward keys input rounds i)
  unfolding search_forward
  search_forward-Found zero i h = tt
  search_forward-Found (suc rounds) i h =
      let (b, e, spans) = between-Spans i (omega arith) in
      Found-round i (between keys input i) b _ e spans
        (search_forward-Found rounds (suc i) (omega arith))

  search_backward-Found :
      (rounds i : ℕ) → i ≤ length keys → Found keys input (search_backward keys input rounds i)
  unfolding search_backward
  search_backward-Found zero i h = tt
  search_backward-Found (suc rounds) zero h = tt
  search_backward-Found (suc rounds) (suc i) h =
      let (b, e, spans) = between-Spans i (omega arith) in
      Found-round i (between keys input i) b _ e spans
        (search_backward-Found rounds i (omega arith))

  -- The search at the remembered index, with its test of the direction.
  Found-turn :
      (i : ℕ) (o : Option (CurveKey Output)) (k : CurveKey Output)
      (forward backward : Option (Option ℕ))
      → o ≡ some k
      → Found keys input forward
      → Found keys input backward
      → Found keys input (elim o [
        | none ↦ none
        | some k ↦ if ltb_ℤ k.input input then forward else if ltb 0 i then backward else some none
      ])
  Found-turn i o k forward backward e f g = rw e (
      if-both (Found keys input) (ltb_ℤ k.input input) f
        (if-both (Found keys input) (ltb 0 i) g tt))

  pub search_near-Found : (key_index : ℕ) → Found keys input (search_near keys input key_index)
  unfolding search_near
  search_near-Found key_index = elim (Bool-cases (ltb key_index (length keys - 1))) [
    | inr out ↦ rw out tt
    | inl near ↦
        let lt : key_index < length keys = ground arith in
        let (b, e, spans) = between-Spans key_index lt in
        let (k, e') = get_elem?-some keys key_index lt in
        rw near (
          Found-round key_index (between keys input key_index) b _ e spans (
            Found-turn key_index (get_elem? keys key_index) k _ _ e'
              (search_forward-Found _ (suc key_index) (ground arith))
              (search_backward-Found _ key_index (omega arith))))
  ]
