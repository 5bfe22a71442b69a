-- ===== src/Transform/Tree/Reached.antt =====
-- getTransformsInTree of o3d-webgl/transform.js: which transforms it gives and when it returns.
use toolbox.Base.{
  ℕ, zero, suc, ◌≤◌, ◌<◌, ◌≡◌, ◌↔◌, ◌⊎◌, inl, inr, refl, sym, ap, ◌∙◌, List, [], ◌∷◌, ◌++◌, Option,
  none, some, arith,
}
use mathlib.Core.Path.{subst}
use mathlib.Core.List.{append-nil, append_assoc}
use toolbox.Base.Arrays.{count, count-append}
use toolbox.Transform.Tree.{Heap, and_then, collect_each, collect, get_transforms_in_tree}
use toolbox.Transform.Tree.Consistent.{IsConsistent, links}

module _ {N : Type 0} where
  -- `a` is `b` or below it: its parents lead to `b`.
  pub data Reaches (h : Heap N) : ℕ → ℕ → Type 0 where
    here : (a : ℕ) → Reaches h a a
    above : {a p b : ℕ} → (h a).parent ≡ some p → Reaches h p b → Reaches h a b

  Reaches-parent : {h : Heap N} {a b c : ℕ} → Reaches h a b → (h b).parent ≡ some c → Reaches h a c
  Reaches-parent (here a) e = above e (here _)
  Reaches-parent (above e' r) e = above e' (Reaches-parent r e)

  -- The last step, or none.
  Reaches-child :
      {h : Heap N} {a b : ℕ}
      → Reaches h a b
      → (a ≡ b) ⊎ ((c : ℕ) × (Reaches h a c × ((h c).parent ≡ some b)))
  Reaches-child (here a) = inl refl
  Reaches-child {h} {a} {b} (above {p = p} e r) = elim (Reaches-child r) [
    | inl same ↦ inr (a, (here a, e ∙ ap some same))
    | inr (c, (r', e')) ↦ inr (c, (above e r', e'))
  ]

  Reaches-same : {h : Heap N} (a b : ℕ) → a ≡ b → Reaches h a b
  Reaches-same {h} a b e = subst (Reaches h a) e (here a)

  -- Parents have greater ranks: there is no cycle.
  abbrev pub IsRanked : (ℕ → ℕ) → Heap N → Type 0
  IsRanked rank h = (a b : ℕ) → (h a).parent ≡ some b → rank a < rank b

-- A run that adds to the result just the transforms of `P`.
abbrev Adds : (List ℕ → Option (List ℕ)) → (ℕ → Type 0) → Type 0
Adds run P =
    (result : List ℕ)
    → (l : List ℕ) × ((run result ≡ some (result ++ l)) × ((a : ℕ) → (1 ≤ count a l) ↔ P a))

some_of_links : (o : Option ℕ) (b : ℕ) → 1 ≤ links o b → o ≡ some b
some_of_links none b m = ground arith
some_of_links (some p) b m = let same : p ≡ b = ground arith in ap some same

count-split : (a : ℕ) (l m : List ℕ) → 1 ≤ count a (l ++ m) → (1 ≤ count a l) ⊎ (1 ≤ count a m)
count-split a l m h = let sum = count-append a l m in omega arith

count-join : (a : ℕ) (l m : List ℕ) → (1 ≤ count a l) ⊎ (1 ≤ count a m) → 1 ≤ count a (l ++ m)
count-join a l m h = let sum = count-append a l m in omega arith

pub count-cons : (c d : ℕ) (cs : List ℕ) → 1 ≤ count d (c ∷ cs) → (c ≡ d) ⊎ (1 ≤ count d cs)
count-cons c d cs h = ground arith

module _ {N : Type 0} where
  parent_of_count :
      (h : Heap N) → IsConsistent h → (c b : ℕ) → 1 ≤ count c (h b).children → (h c).parent ≡ some b
  parent_of_count h s c b m = let once = s c b in some_of_links (h c).parent b (omega arith)

  pub count_of_parent :
      (h : Heap N) → IsConsistent h → (c b : ℕ) → (h c).parent ≡ some b → 1 ≤ count c (h b).children
  count_of_parent h s c b e = let once = s c b ∙ ap (λ o. links o b) e in ground arith

  -- Below one of these transforms.
  abbrev Below : Heap N → List ℕ → ℕ → Type 0
  Below h cs a = (c : ℕ) × ((1 ≤ count c cs) × Reaches h a c)

  Below-cons :
      (h : Heap N) (c a : ℕ) (cs l m : List ℕ)
      → (1 ≤ count a l) ↔ Reaches h a c
      → (1 ≤ count a m) ↔ Below h cs a
      → (1 ≤ count a (l ++ m)) ↔ Below h (c ∷ cs) a
  Below-cons h c a cs l m p q = (
    λ n. elim (count-split a l m n) [
      | inl x ↦ (c, (ground arith, p.0 x))
      | inr y ↦ let (d, (k, r)) = q.0 y in (d, (ground arith, r))
    ],
    λ (d, (k, r)). count-join a l m (elim (count-cons c d cs k) [
      | inl same ↦ inl (p.1 (subst (Reaches h a) (sym same) r))
      | inr k' ↦ inr (q.1 (d, (k', r)))
    ]),
  )

  collect_each-Adds :
      (h : Heap N) (g : ℕ → List ℕ → Option (List ℕ)) (cs : List ℕ)
      → ((c : ℕ) → 1 ≤ count c cs → Adds (g c) (λ a. Reaches h a c))
      → Adds (collect_each g cs) (Below h cs)
  unfolding collect_each
  collect_each-Adds h g [] ih result = (
    [],
    (ap some (sym (append-nil result)), λ a. (λ m. ground arith, λ (c, (m, r)). ground arith)),
  )
  collect_each-Adds h g (c ∷ cs) ih result =
      let (l, (e, p)) = ih c (ground arith) result in
      let (m, (e', q)) = collect_each-Adds h g cs (λ d n. ih d (ground arith)) (result ++ l) in
      let run : and_then (g c result) (collect_each g cs) ≡ some (result ++ (l ++ m)) =
        ap (λ o. and_then o (collect_each g cs)) e ∙ e' ∙ ap some (append_assoc result l m) in
      (l ++ m, (run, λ a. Below-cons h c a cs l m (p a) (q a)))

  Reaches-Below :
      (h : Heap N)
      → IsConsistent h
      → (root a : ℕ) (l : List ℕ) → (1 ≤ count a l) ↔ Below h (h root).children a
      → (1 ≤ count a (root ∷ l)) ↔ Reaches h a root
  Reaches-Below h s root a l q = (
    λ n. elim (count-cons root a l n) [
      | inl same ↦ Reaches-same a root (sym same)
      | inr n' ↦ let (c, (k, r)) = q.0 n' in Reaches-parent r (parent_of_count h s c root k)
    ],
    λ r. elim (Reaches-child r) [
      | inl same ↦ ground arith
      | inr (c, (r', e)) ↦ let below = q.1 (c, (count_of_parent h s c root e, r')) in ground arith
    ],
  )

  collect-Adds :
      (h : Heap N) (rank : ℕ → ℕ)
      → IsConsistent h
      → IsRanked rank h
      → (depth root : ℕ) → rank root < depth
      → Adds (collect depth h root) (λ a. Reaches h a root)
  unfolding collect
  collect-Adds h rank s t zero root d result = ground arith
  collect-Adds h rank s t (suc depth) root d result =
      let children = (h root).children in
      let lower : (c : ℕ) → 1 ≤ count c children → rank c < depth =
        λ c n. let less = t c root (parent_of_count h s c root n) in omega arith in
      let (l, (e, q)) =
        collect_each-Adds h (collect depth h) children
          (λ c n. collect-Adds h rank s t depth c (lower c n)) (result ++ root ∷ []) in
      (
        root ∷ l,
        (e ∙ ap some (append_assoc result (root ∷ []) l), λ a. Reaches-Below h s root a l (q a)),
      )

  -- getTransformsInTree returns when the parents have no cycle (their ranks are greater, rank root + 1
  -- nested calls are enough) and agree with the children, and it gives the transform itself and those
  -- whose parents lead to it, no others.
  pub get_transforms_in_tree-Reaches :
      (h : Heap N) (rank : ℕ → ℕ)
      → IsConsistent h
      → IsRanked rank h
      → (depth root : ℕ) → rank root < depth
      → (l : List ℕ) × ((get_transforms_in_tree depth h root ≡ some l)
          × ((a : ℕ) → (1 ≤ count a l) ↔ Reaches h a root))
  unfolding get_transforms_in_tree
  get_transforms_in_tree-Reaches h rank s t depth root d = collect-Adds h rank s t depth root d []
