-- ===== src/Curve/Sorted.antt =====
-- The sort in `updateCurveInfo_` of o3d-webgl/curve.js.
use toolbox.Base.{
  ℕ, zero, suc, ◌≡◌, refl, sym, ap, ◌∙◌, true, some, List, [], ◌∷◌, get_elem?, length, select, All,
  All-mono, Bool-cases, inl, inr, arith,
}
use mathlib.Core.Option.{some-injective}
use toolbox.Base.Int.{ℤ, ltb_ℤ, eqb_ℤ, ◌≤ℤ◌, lt_of_ltb_ℤ, le_of_ltb_ℤ}
use toolbox.Curve.Keys.{
  CurveKey, Curve, Outputs, insert_key, sort_keys, resort, update_curve_info, invalidate_cache,
}
use toolbox.Curve.Search.Spans.{IsSorted}

module _ {Output : Type 0} where
  abbrev NotBefore : ℤ → List (CurveKey Output) → Type 0
  NotBefore input = All (λ k. input ≤ℤ k.input)

  abbrev Ordered : List (CurveKey Output) → Type 0
  Ordered [] = Unit
  Ordered (k ∷ ks) = NotBefore k.input ks × Ordered ks

  -- The keys at one input, in their order.
  abbrev pub keys_at : ℤ → List (CurveKey Output) → List (CurveKey Output)
  keys_at input = select (λ k. eqb_ℤ k.input input)

  NotBefore-get_elem? :
      (input : ℤ) (ks : List (CurveKey Output)) (i : ℕ) (k : CurveKey Output)
      → NotBefore input ks
      → get_elem? ks i ≡ some k
      → input ≤ℤ k.input
  NotBefore-get_elem? input [] i k h e = cc
  NotBefore-get_elem? input (l ∷ ls) zero k h e = rw (some-injective l k e) at h.0
  NotBefore-get_elem? input (l ∷ ls) (suc i) k h e = NotBefore-get_elem? input ls i k h.1 e

  Ordered-IsSorted : (ks : List (CurveKey Output)) → Ordered ks → IsSorted ks
  Ordered-IsSorted [] h i j k l e f le = cc
  Ordered-IsSorted (m ∷ ms) h zero zero k l e f le =
      rw (some-injective k l (sym e ∙ f)) (omega arith)
  Ordered-IsSorted (m ∷ ms) h zero (suc j) k l e f le =
      rw (some-injective m k e) at (NotBefore-get_elem? m.input ms j l h.0 f)
  Ordered-IsSorted (m ∷ ms) h (suc i) zero k l e f le = absurd (omega arith)
  Ordered-IsSorted (m ∷ ms) h (suc i) (suc j) k l e f le =
      Ordered-IsSorted ms h.1 i j k l e f (omega arith)

module _ (o : Outputs) where
  open o use {Output}

  NotBefore-insert_key :
      (input : ℤ) (k : CurveKey Output) (ls : List (CurveKey Output))
      → input ≤ℤ k.input
      → NotBefore input ls
      → NotBefore input (insert_key o k ls)
  unfolding insert_key
  NotBefore-insert_key input k [] h hs = (h, tt)
  NotBefore-insert_key input k (l ∷ ls) h hs = elim (Bool-cases (ltb_ℤ l.input k.input)) [
    | inl lt ↦ rw lt (hs.0, NotBefore-insert_key input k ls h hs.1)
    | inr ge ↦ rw ge (h, hs)
  ]

  insert_key-Ordered :
      (k : CurveKey Output) (ls : List (CurveKey Output)) → Ordered ls → Ordered (insert_key o k ls)
  unfolding insert_key
  insert_key-Ordered k [] h = (tt, tt)
  insert_key-Ordered k (l ∷ ls) h = elim (Bool-cases (ltb_ℤ l.input k.input)) [
    | inl lt ↦ rw lt (
      NotBefore-insert_key l.input k ls (omega (arith, lt_of_ltb_ℤ l.input k.input lt)) h.0,
      insert_key-Ordered k ls h.1,
    )
    | inr ge ↦
        let first : k.input ≤ℤ l.input = le_of_ltb_ℤ l.input k.input ge in
        rw ge ((first, All-mono ls (λ m le. omega arith) h.0), h)
  ]

  sort_keys-Ordered : (ks : List (CurveKey Output)) → Ordered (sort_keys o ks)
  unfolding sort_keys
  sort_keys-Ordered [] = tt
  sort_keys-Ordered (k ∷ ks) = insert_key-Ordered k (sort_keys o ks) (sort_keys-Ordered ks)

  keys_at-insert_key :
      (input : ℤ) (k : CurveKey Output) (ls : List (CurveKey Output))
      → keys_at input (insert_key o k ls) ≡ keys_at input (k ∷ ls)
  unfolding insert_key
  keys_at-insert_key input k [] = refl
  keys_at-insert_key input k (l ∷ ls) = ground (arith, keys_at-insert_key input k ls)

  keys_at-sort_keys :
      (input : ℤ) (ks : List (CurveKey Output)) → keys_at input (sort_keys o ks) ≡ keys_at input ks
  unfolding sort_keys
  keys_at-sort_keys input [] = refl
  keys_at-sort_keys input (k ∷ ks) =
      keys_at-insert_key input k (sort_keys o ks) ∙ ground (arith, keys_at-sort_keys input ks)

  length-insert_key :
      (k : CurveKey Output) (ls : List (CurveKey Output))
      → length (insert_key o k ls) ≡ suc (length ls)
  unfolding insert_key
  length-insert_key k [] = refl
  length-insert_key k (l ∷ ls) = ground (arith, length-insert_key k ls)

  length-sort_keys : (ks : List (CurveKey Output)) → length (sort_keys o ks) ≡ length ks
  unfolding sort_keys
  length-sort_keys [] = refl
  length-sort_keys (k ∷ ks) = length-insert_key k (sort_keys o ks) ∙ ap suc (length-sort_keys ks)

  -- The flag `sorted` tells the truth.
  abbrev pub FlagHolds : Curve Output → Type 0
  FlagHolds c = c.sorted ≡ true → IsSorted c.keys

  resort-keys :
      (c : Curve Output)
      → FlagHolds c
      → IsSorted (resort o c).keys
        × ((input : ℤ) → keys_at input (resort o c).keys ≡ keys_at input c.keys)
        × ((resort o c).sorted ≡ true)
  unfolding resort invalidate_cache
  resort-keys c h = elim (Bool-cases c.sorted) [
    | inl s ↦ rw s (h s, (λ input. refl), refl)
    | inr u ↦ rw u (
      Ordered-IsSorted (sort_keys o c.keys) (sort_keys-Ordered c.keys),
      (λ input. keys_at-sort_keys input c.keys),
      refl,
    )
  ]

  pub keys-update_curve_info : (c : Curve Output) → (update_curve_info o c).keys ≡ (resort o c).keys
  unfolding update_curve_info
  keys-update_curve_info c = elim (Bool-cases ((resort o c).check_discontinuity)) [
    | inl t ↦ rw t refl
    | inr f ↦ rw f refl
  ]

  pub length-update_curve_info :
      (c : Curve Output) → length (update_curve_info o c).keys ≡ length c.keys
  unfolding resort invalidate_cache
  length-update_curve_info c =
      rw (keys-update_curve_info c)
        (elim (Bool-cases c.sorted) [ inl s ↦ rw s refl | inr u ↦ rw u (length-sort_keys c.keys) ])

  sorted-update_curve_info :
      (c : Curve Output) → (update_curve_info o c).sorted ≡ (resort o c).sorted
  unfolding update_curve_info
  sorted-update_curve_info c = elim (Bool-cases ((resort o c).check_discontinuity)) [
    | inl t ↦ rw t refl
    | inr f ↦ rw f refl
  ]

  -- Where the flag `sorted` told the truth before, `updateCurveInfo_` leaves the keys in the order
  -- of their inputs with the flag set, and the keys at each input are the ones from before, in
  -- their old order.
  pub update_curve_info-IsSorted :
      (c : Curve Output)
      → FlagHolds c
      → IsSorted (update_curve_info o c).keys
        × ((input : ℤ) → keys_at input (update_curve_info o c).keys ≡ keys_at input c.keys)
        × ((update_curve_info o c).sorted ≡ true)
  update_curve_info-IsSorted c h =
      let (sorted, kept, flag) = resort-keys c h in
      (
        rw (keys-update_curve_info c) sorted,
        (λ input. rw (keys-update_curve_info c) (kept input)),
        sorted-update_curve_info c ∙ flag,
      )
