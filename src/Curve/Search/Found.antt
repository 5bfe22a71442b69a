-- ===== src/Curve/Search/Found.antt =====
-- The whole search of `getOutputInSpan_`: both of its loops, and the context.
use toolbox.Base.{
  ℕ, zero, suc, ◌+◌, ◌-◌, ◌/◌, ◌≤◌, ◌<◌, ◌≡◌, refl, sym, ◌∙◌, true, false, ◌||◌, Option, none, some,
  List, [], ◌==◌, if◌then◌else◌, length, leb, get_elem?, get_elem?-some, get_elem?-lt, Bool-cases,
  inl, inr, arith,
}
use mathlib.Core.Option.{some-injective}
use toolbox.Base.Int.{ℤ, ltb_ℤ, ◌≤ℤ◌, ◌<ℤ◌}
use toolbox.Curve.Keys.{CurveKey}
use toolbox.Curve.Search.{Message, bisect, scan, scan_from, search_all}
use toolbox.Curve.Search.Spans.{IsSorted, Spans, NotPast, EndsPast, size_pos, next_in_range}

module _ {Output : Type 0} (keys : List (CurveKey Output)) (input : ℤ) (ends : EndsPast keys input)
    (sorted : IsSorted keys) where
  -- A place in range with no key past the input before it.
  abbrev Place : Option ℕ → Type 0
  Place none = ⊥
  Place (some n) = (n < length keys) × NotPast keys input n

  Place-round :
      (fuel mid start : ℕ) (o : Option (CurveKey Output)) (k : CurveKey Output)
      (upper lower : Option ℕ)
      → o ≡ some k
      → (ltb_ℤ k.input input ≡ true → Place upper)
      → (start < length keys) × NotPast keys input start
      → ((mid == 0) ≡ false → Place lower)
      → Place (elim o [
        | none ↦ none
        | some k ↦ if ltb_ℤ k.input input then upper else if mid == 0 then some start else lower
      ])
  Place-round fuel mid start o k upper lower e u h l =
      rw e (elim (Bool-cases (ltb_ℤ k.input input)) [
        | inl lt ↦ rw lt (u lt)
        | inr ge ↦ rw ge (elim (Bool-cases (mid == 0)) [ inl z ↦ rw z h | inr nz ↦ rw nz (l nz) ])
      ])

  NotPast-upto :
      (mid : ℕ) (k : CurveKey Output)
      → get_elem? keys mid ≡ some k
      → k.input ≤ℤ input
      → NotPast keys input (mid + 1)
  NotPast-upto mid k e le i l h e' = omega (arith, sorted i mid l k e' e (omega arith))

  bisect-Place :
      (fuel start end : ℕ)
      → suc end - start < fuel
      → end ≤ length keys
      → start < length keys
      → NotPast keys input start
      → Place (bisect keys input fuel start end)
  unfolding bisect
  bisect-Place zero start end f e s n = absurd (omega arith)
  bisect-Place (suc fuel) start end f e s n = elim (Bool-cases (leb start end)) [
    | inr out ↦ rw out (s, n)
    | inl le ↦
        let mid : ℕ = (start + end) / 2 in
        let in_order : start ≤ end = ground arith in
        let (k, eq) = get_elem?-some keys mid (omega arith) in
        rw le (
          Place-round fuel mid start (get_elem? keys mid) k _ _ eq
            (λ lt.
              let not_past : k.input ≤ℤ input = ground arith in
              bisect-Place fuel (mid + 1) end (omega arith) e
                (omega (arith, next_in_range keys input ends mid k eq not_past))
                (NotPast-upto mid k eq not_past))
            (s, n)
            (λ nz.
              let pos : 0 < mid = ground arith in
              bisect-Place fuel start (mid - 1) (omega arith) (omega arith) s n))
  ]

  -- Where the scan stops: at the first key past the input.
  Stops : ℕ → Type 0
  Stops n =
      (k : CurveKey Output) × (get_elem? keys n ≡ some k)
      × (input <ℤ k.input)
      × NotPast keys input n

  scan-Stops :
      (rounds start : ℕ)
      → rounds + start ≡ length keys
      → NotPast keys input start
      → start < length keys
      → Stops (scan keys input rounds start)
  unfolding scan Stops
  scan-Stops zero start e n lt = absurd (omega arith)
  scan-Stops (suc rounds) start e n lt =
      let (k, eq) = get_elem?-some keys start lt in
      rw (eq, scan)
        (elim (Bool-cases (ltb_ℤ input k.input)) [
          | inl past ↦ rw past (k, eq, ground arith, n)
          | inr not_past ↦
              let le : k.input ≤ℤ input = ground arith in
              rw not_past (
                scan-Stops rounds (suc start) (omega arith)
                  (λ i l h e'. NotPast-upto start k eq le i l (omega arith) e')
                  (next_in_range keys input ends start k eq le))
        ])

  module _ (first : CurveKey Output) (e : get_elem? keys 0 ≡ some first)
      (le : first.input ≤ℤ input) where
    Stops-Spans :
        (n : ℕ)
        → Stops n
        → (i : ℕ) × (n ≡ suc i) × ((n == 0 || leb (length keys) n) ≡ false) × Spans keys input i
    unfolding Stops
    Stops-Spans zero (k, eq, past, n) =
        let same : first ≡ k = some-injective first k (sym e ∙ eq) in
        absurd (omega (arith, rw same at le))
    Stops-Spans (suc i) (next, eq, past, n) =
        let lt = get_elem?-lt keys (suc i) next eq in
        let (k, eq') = get_elem?-some keys i (omega arith) in
        (i, refl, ground arith, (k, next, eq', eq, n i k (omega arith) eq', past))

    scan_from-Spans :
        (middle : ℕ)
        → (middle < length keys) × NotPast keys input middle
        → (i : ℕ) × (scan_from keys input middle ≡ (suc i, [])) × Spans keys input i
    unfolding scan_from
    scan_from-Spans middle (lt, n) =
        let (i, at_i, inside, spans) =
          Stops-Spans _ (scan-Stops (length keys - middle) middle (omega arith) n lt) in
        (i, rw (inside, at_i) refl, spans)

    pub search_all-Spans : (i : ℕ) × (search_all keys input ≡ some (suc i, [])) × Spans keys input i
    unfolding search_all
    search_all-Spans = go (bisect keys input (length keys + 2) 0 (length keys)) (
        bisect-Place (length keys + 2) 0 (length keys) (omega arith) (omega arith)
          (size_pos keys input ends) (λ i k h. absurd (omega arith)))
      where
        go :
            (place : Option ℕ)
            → Place place
            → (i : ℕ) × (◌≡◌ {A = Option (ℕ × List Message)}
                (elim place [ none ↦ none | some middle ↦ some (scan_from keys input middle) ])
                (some (suc i, [])))
              × Spans keys input i
        go none p = absurd p
        go (some middle) p = let (i, eq, spans) = scan_from-Spans middle p in (i, rw eq refl, spans)
