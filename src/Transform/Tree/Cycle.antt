-- ===== src/Transform/Tree/Cycle.antt =====
-- A transform that is set as its own parent in o3d-webgl/transform.js.
use toolbox.Base.{
  ℕ, zero, suc, ◌≤◌, ◌≡◌, refl, ap, ◌∙◌, true, List, [], ◌∷◌, ◌++◌, Option, none, some, ◌==◌, inl,
  inr, arith,
}
use toolbox.Base.Arrays.{count}
use toolbox.Transform.Tree.{
  Heap, and_then, collect_each, collect, get_transforms_in_tree, set_parent,
}
use toolbox.Transform.Tree.Consistent.{IsConsistent, set_parent-IsConsistent}
use toolbox.Transform.Tree.Reached.{count_of_parent, count-cons}

and_then-none :
    (o : Option (List ℕ)) (f : List ℕ → Option (List ℕ))
    → ((l : List ℕ) → f l ≡ none)
    → and_then o f ≡ none
and_then-none none f e = refl
and_then-none (some l) f e = e l

collect_each-none :
    (g : ℕ → List ℕ → Option (List ℕ)) (c : ℕ) (cs : List ℕ)
    → 1 ≤ count c cs
    → ((l : List ℕ) → g c l ≡ none)
    → (l : List ℕ) → collect_each g cs l ≡ none
unfolding collect_each
collect_each-none g c [] m e l = ground arith
collect_each-none g c (x ∷ cs) m e l = elim (count-cons x c cs m) [
  | inl same ↦ ap (λ o. and_then o (collect_each g cs)) (ap (λ y. g y l) same ∙ e l)
  | inr m' ↦ and_then-none (g x l) (collect_each g cs) (collect_each-none g c cs m' e)
]

module _ {N : Type 0} where
  collect-none :
      (h : Heap N) (this : ℕ)
      → 1 ≤ count this (h this).children
      → (depth : ℕ) (l : List ℕ) → collect depth h this l ≡ none
  unfolding collect
  collect-none h this m zero l = refl
  collect-none h this m (suc depth) l =
      collect_each-none (collect depth h) this (h this).children m (collect-none h this m depth)
        (l ++ this ∷ [])

  -- Setting a transform as its own parent, which the comment at `parent` says fails, succeeds, and
  -- after it getTransformsInTree returns at no depth of calls.
  pub set_parent-cycle :
      (h : Heap N) (this : ℕ)
      → IsConsistent h
      → ((set_parent this (some this) h this).parent ≡ some this)
        × ((depth : ℕ) → get_transforms_in_tree depth (set_parent this (some this) h) this ≡ none)
  unfolding get_transforms_in_tree
  set_parent-cycle h this s =
      let (s', parents) = set_parent-IsConsistent h this (some this) s in
      let looped = set_parent this (some this) h in
      let self : this == this ≡ true = ground arith in
      let own : (looped this).parent ≡ some this = parents this ∙ rw self refl in
      (own, λ depth. collect-none looped this (count_of_parent looped s' this this own) depth [])
