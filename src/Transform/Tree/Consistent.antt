-- ===== src/Transform/Tree/Consistent.antt =====
-- Parents and children of transforms in o3d-webgl/transform.js agree.
use toolbox.Base.{
  ℕ, ◌+◌, ◌≡◌, refl, sym, ap, ◌∙◌, true, false, [], ◌∷◌, Option, none, some, if◌then◌else◌, ◌==◌,
  Bool-cases, inl, inr, arith,
}
use toolbox.Base.Arrays.{count, count-append, count-remove_from_array}
use toolbox.Transform.Tree.{
  Heap, write, with_parent, add_child, leave_parent, join_parent, set_parent,
}

-- How often `b` is the parent.
abbrev pub links : Option ℕ → ℕ → ℕ
links none b = 0
links (some p) b = if p == b then 1 else 0

module _ {N : Type 0} where
  -- A transform is among the children of its parent once, and of no other transform.
  abbrev pub IsConsistent : Heap N → Type 0
  IsConsistent h = (a b : ℕ) → count a (h b).children ≡ links (h a).parent b

  leave_parent-parent :
      (h : Heap N) (o : Option ℕ) (this a : ℕ) → (leave_parent o this h a).parent ≡ (h a).parent
  unfolding leave_parent
  leave_parent-parent h none this a = refl
  leave_parent-parent h (some old) this a = elim (Bool-cases (a == old)) [
    | inl t ↦ let same : a ≡ old = ground arith in rw t (ap (λ x. (h x).parent) (sym same))
    | inr t ↦ rw t refl
  ]

  leave_parent-count :
      (h : Heap N) (o : Option ℕ) (this a b : ℕ)
      → (h this).parent ≡ o
      → IsConsistent h
      → count a (leave_parent o this h b).children ≡ (if this == a then 0 else links (h a).parent b)
  unfolding leave_parent
  leave_parent-count h none this a b e s = elim (Bool-cases (this == a)) [
    | inl t ↦
        let same : this ≡ a = ground arith in
        rw t (s a b ∙ ap (λ x. links (h x).parent b) (sym same) ∙ ap (λ x. links x b) e)
    | inr t ↦ rw t (s a b)
  ]
  leave_parent-count h (some old) this a b e s =
      let own : (c : ℕ) → count this (h c).children ≡ links (some old) c =
        λ c. s this c ∙ ap (λ x. links x c) e in
      let removed = count-remove_from_array this a (h old).children in
      elim (Bool-cases (b == old)) [
        | inl t ↦
            let same : b ≡ old = ground arith in
            rw t (elim (Bool-cases (this == a)) [
              | inl u ↦
                  let self : this ≡ a = ground arith in
                  let once = own old in
                  let last = ap (λ x. count x (h old).children) self in rw u (ground arith)
              | inr u ↦ rw u (rw u at removed ∙ s a old ∙ ap (links (h a).parent) (sym same))
            ])
        | inr t ↦ rw t (elim (Bool-cases (this == a)) [
          | inl u ↦
              let self : this ≡ a = ground arith in
              let never = own b in
              let last = ap (λ x. count x (h b).children) self in rw u (ground arith)
          | inr u ↦ rw u (s a b)
        ])
      ]

  -- After the second step of the setter of `parent`: no transform has `this` as a child.
  linked-parent :
      (h : Heap N) (this a : ℕ) (p : Option ℕ)
      → (write h this (with_parent p (h this)) a).parent ≡ (if this == a then p else (h a).parent)
  linked-parent h this a p = elim (Bool-cases (this == a)) [
    | inl t ↦ let u : a == this ≡ true = ground arith in rw (t, u) refl
    | inr t ↦ let u : a == this ≡ false = ground arith in rw (t, u) refl
  ]

  linked-children :
      (h : Heap N) (this b : ℕ) (p : Option ℕ)
      → (write h this (with_parent p (h this)) b).children ≡ (h b).children
  linked-children h this b p = elim (Bool-cases (b == this)) [
    | inl t ↦ let same : this ≡ b = ground arith in rw t (ap (λ x. (h x).children) same)
    | inr t ↦ rw t refl
  ]

  join_parent-parent :
      (h : Heap N) (p : Option ℕ) (this a : ℕ) → (join_parent p this h a).parent ≡ (h a).parent
  unfolding join_parent add_child
  join_parent-parent h none this a = refl
  join_parent-parent h (some q) this a = elim (Bool-cases (a == q)) [
    | inl t ↦ let same : q ≡ a = ground arith in rw t (ap (λ x. (h x).parent) same)
    | inr t ↦ rw t refl
  ]

  join_parent-count :
      (h : Heap N) (p : Option ℕ) (this a b : ℕ)
      → count a (join_parent p this h b).children
        ≡ count a (h b).children + (if this == a then links p b else 0)
  unfolding join_parent add_child
  join_parent-count h none this a b = ground arith
  join_parent-count h (some q) this a b = elim (Bool-cases (b == q)) [
    | inl t ↦
        let same : q ≡ b = ground arith in
        let u : q == b ≡ true = ground arith in
        rw t (
          count-append a (h q).children (this ∷ [])
          ∙ (λ i. count a (h (same i)).children + count a (this ∷ []))
          ∙ rw u (ground arith))
    | inr t ↦ let u : q == b ≡ false = ground arith in rw (t, u) (ground arith)
  ]

  set_parent-parent :
      (h : Heap N) (this a : ℕ) (p : Option ℕ)
      → (set_parent this p h a).parent ≡ (if this == a then p else (h a).parent)
  unfolding set_parent
  set_parent-parent h this a p =
      let left = leave_parent (h this).parent this h in
      let linked = write left this (with_parent p (left this)) in
      join_parent-parent linked p this a
      ∙ linked-parent left this a p
      ∙ ap (λ x. if this == a then p else x) (leave_parent-parent h (h this).parent this a)

  set_parent-count :
      (h : Heap N) (this : ℕ) (p : Option ℕ)
      → IsConsistent h
      → (a b : ℕ)
      → count a (set_parent this p h b).children ≡ links (set_parent this p h a).parent b
  unfolding set_parent
  set_parent-count h this p s a b =
      let left = leave_parent (h this).parent this h in
      let linked = write left this (with_parent p (left this)) in
      let counted =
        join_parent-count linked p this a b
        ∙ ap (λ l. count a l + (if this == a then links p b else 0)) (linked-children left this b p)
        ∙ ap (λ k. k + (if this == a then links p b else 0))
            (leave_parent-count h (h this).parent this a b refl s) in
      let same_links : (if this == a then 0 else links (h a).parent b)
            + (if this == a then links p b else 0)
          ≡ links (if this == a then p else (h a).parent) b =
        elim (Bool-cases (this == a)) [
          | inl t ↦ rw t (ground arith)
          | inr t ↦ rw t (ground arith)
        ] in
      counted ∙ same_links ∙ ap (λ x. links x b) (sym (set_parent-parent h this a p))

  -- The setter of `parent` keeps parents and children consistent: a transform is once among the
  -- children of its parent and never among those of another transform. It changes the parent of no
  -- other transform.
  pub set_parent-IsConsistent :
      (h : Heap N) (this : ℕ) (p : Option ℕ)
      → IsConsistent h
      → IsConsistent (set_parent this p h)
        × ((a : ℕ) → (set_parent this p h a).parent ≡ (if this == a then p else (h a).parent))
  set_parent-IsConsistent h this p s =
      (λ a b. set_parent-count h this p s a b, λ a. set_parent-parent h this a p)
