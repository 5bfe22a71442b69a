-- ===== src/Transform/World/Carried.antt =====
-- The world matrix of getUpdatedWorldMatrix in o3d-webgl/transform.js, on vectors.
use toolbox.Base.{
  ℕ, zero, suc, ◌<◌, ◌≡◌, ◌⊎◌, inl, inr, refl, sym, ap, ◌∙◌, ◌++◌, Option, none, some, ◌==◌,
  Bool-cases, arith,
}
use mathlib.Core.Path.{subst}
use toolbox.Ring.{Numbers, IsRing}
use toolbox.Ring.Expressions.{expressions}
use toolbox.Math.{Array4, Matrix4, entries4, list4}
use toolbox.Math.Symbolic.{variables4, variables44, solve4}
use toolbox.Transform.Matrices.{compose, multiply_vector}
use toolbox.Transform.Tree.{Heap, write, with_world, unit_matrix}
use toolbox.Transform.Tree.Reached.{Reaches, here, above}
use toolbox.Transform.World.{place, get_updated_world_matrix}
use toolbox.Transform.World

module _ (n : Numbers) where
  -- A vector in the coordinates of a transform, carried by its local matrix and those of its parents.
  pub data Carries (h : Heap n.Number) : ℕ → Array4 n.Number → Array4 n.Number → Type 0 where
    root :
        {a : ℕ} {v : Array4 n.Number}
        → (h a).parent ≡ none
        → Carries h a v (multiply_vector n (h a).local_matrix v)
    up :
        {a p : ℕ} {v w : Array4 n.Number}
        → (h a).parent ≡ some p
        → Carries h p (multiply_vector n (h a).local_matrix v) w
        → Carries h a v w

  -- The matrix carries vectors in one step.
  abbrev IsWorld : Heap n.Number → ℕ → Matrix4 n.Number → Type 0
  IsWorld h a m = (v w : Array4 n.Number) → Carries h a v w → multiply_vector n m v ≡ w

  abbrev SameLinks : Heap n.Number → Heap n.Number → Type 0
  SameLinks h h' =
      (a : ℕ) → ((h' a).parent ≡ (h a).parent) × ((h' a).local_matrix ≡ (h a).local_matrix)

module _ (n : Numbers) (r : IsRing n) where
  multiply_vector-compose :
      (a b : Matrix4 n.Number) (v : Array4 n.Number)
      → multiply_vector n (compose n a b) v ≡ multiply_vector n a (multiply_vector n b v)
  unfolding compose multiply_vector
  multiply_vector-compose a b v =
      let x = variables44 0 in
      let y = variables44 16 in
      let u = variables4 32 in
      solve4 n r (entries4 a ++ entries4 b ++ list4 v)
        (multiply_vector expressions (compose expressions x y) u)
        (multiply_vector expressions x (multiply_vector expressions y u)) refl

  multiply_vector_unit : (v : Array4 n.Number) → multiply_vector n (unit_matrix n) v ≡ v
  unfolding multiply_vector
  multiply_vector_unit v =
      solve4 n r (list4 v) (multiply_vector expressions (unit_matrix expressions) (variables4 0))
        (variables4 0) refl

  -- The step from the parent's world matrix, whatever the parent.
  abbrev IsAbove : Heap n.Number → Option ℕ → Matrix4 n.Number → Type 0
  IsAbove h none m = m ≡ unit_matrix n
  IsAbove h (some p) m = IsWorld n h p m

  IsWorld-compose :
      (h : Heap n.Number) (a : ℕ) (o : Option ℕ) (m : Matrix4 n.Number)
      → (h a).parent ≡ o
      → IsAbove h o m
      → IsWorld n h a (compose n m (h a).local_matrix)
  IsWorld-compose h a none m e t v w (root e') =
      multiply_vector-compose m (h a).local_matrix v
      ∙ ap (λ x. multiply_vector n x (multiply_vector n (h a).local_matrix v)) t
      ∙ multiply_vector_unit (multiply_vector n (h a).local_matrix v)
  IsWorld-compose h a none m e t v w (up {p = p} e' c) = cc
  IsWorld-compose h a (some p) m e t v w (root e') = cc
  IsWorld-compose h a (some p) m e t v w (up {p = q} e' c) =
      let same : q ≡ p = cc in
      multiply_vector-compose m (h a).local_matrix v
      ∙ t (multiply_vector n (h a).local_matrix v) w
          (subst (λ x. Carries n h x (multiply_vector n (h a).local_matrix v) w) same c)

  -- What a call leaves: the matrix it returns, and world matrices of the transforms that `reached` tells.
  abbrev IsUpdated : (h : Heap n.Number) (reached : ℕ → Type 0) → Heap n.Number → Type 0
  IsUpdated h reached h' =
      SameLinks n h h'
      × ((a : ℕ) → reached a → IsWorld n h a (h' a).world_matrix)
      × ((a : ℕ) → ¬ reached a → h' a ≡ h a)

module _ {N : Type 0} where
  abbrev pub Above : Heap N → Option ℕ → ℕ → Type 0
  Above h none a = ⊥
  Above h (some p) a = Reaches h p a

  Above-Reaches :
      (h : Heap N) (this a : ℕ) (o : Option ℕ)
      → (h this).parent ≡ o
      → Above h o a
      → Reaches h this a
  Above-Reaches h this a none e b = absurd b
  Above-Reaches h this a (some p) e b = above e b

  Reaches-Above :
      (h : Heap N) (this a : ℕ) (o : Option ℕ)
      → (h this).parent ≡ o
      → Reaches h this a
      → (this ≡ a) ⊎ Above h o a
  Reaches-Above h this a none e (here x) = inl refl
  Reaches-Above h this a none e (above e' r) = cc
  Reaches-Above h this a (some p) e (here x) = inl refl
  Reaches-Above h this a (some p) e (above {p = q} e' r) =
      let same : q ≡ p = cc in inr (subst (λ x. Reaches h x a) same r)

module _ (n : Numbers) (r : IsRing n) where
  place-IsUpdated :
      (h h' : Heap n.Number) (this : ℕ) (o : Option ℕ) (m : Matrix4 n.Number)
      → (h this).parent ≡ o
      → IsAbove n r h o m
      → IsUpdated n r h (Above h o) h'
      → IsUpdated n r h
          (Reaches h this)
          (write h' this (with_world (compose n m (h' this).local_matrix) (h' this)))
  place-IsUpdated h h' this o m e t (links, worlds, rest) =
      let world = compose n m (h' this).local_matrix in
      let same_world : compose n m (h this).local_matrix ≡ world =
        ap (compose n m) (sym (links this).1) in
      (
        λ a. elim (Bool-cases (a == this)) [
          | inl u ↦
              let same : this ≡ a = ground arith in
              rw u (
                subst
                  (λ x.
                    ((h' this).parent ≡ (h x).parent)
                    × ((h' this).local_matrix ≡ (h x).local_matrix))
                  same (links this))
          | inr u ↦ rw u (links a)
        ],
        λ a reached. elim (Bool-cases (a == this)) [
          | inl u ↦
              let same : this ≡ a = ground arith in
              rw u (
                subst (λ x. IsWorld n h x world) same
                  (subst (IsWorld n h this) same_world (IsWorld-compose n r h this o m e t)))
          | inr u ↦
              let apart : ¬ (this ≡ a) = ground arith in
              rw u (elim (Reaches-Above h this a o e reached) [
                | inl same ↦ absurd (apart same)
                | inr higher ↦ worlds a higher
              ])
        ],
        λ a missed. elim (Bool-cases (a == this)) [
          | inl u ↦
              let same : this ≡ a = ground arith in
              absurd (missed (subst (Reaches h this) same (here this)))
          | inr u ↦ rw u (rest a (λ b. missed (Above-Reaches h this a o e b)))
        ],
      )

  -- What a call that returns gives.
  abbrev pub Updates :
      (h : Heap n.Number) (this : ℕ) → Option (Matrix4 n.Number × Heap n.Number) → Type 0
  Updates h this result =
      (m : Matrix4 n.Number) × (h' : Heap n.Number) × ((result ≡ some (m, h'))
        × IsWorld n h this m
        × IsUpdated n r h (Reaches h this) h')

  above-IsUpdated :
      (h : Heap n.Number) (update : ℕ → Heap n.Number → Option (Matrix4 n.Number × Heap n.Number))
      (o : Option ℕ)
      → ((p : ℕ) → o ≡ some p → Updates h p (update p h))
      → (m : Matrix4 n.Number) × (h' : Heap n.Number) × ((World.above n update o h ≡ some (m, h'))
          × IsAbove n r h o m
          × IsUpdated n r h (Above h o) h')
  above-IsUpdated h update none ih =
      (unit_matrix n, h, (refl, refl, (λ a. (refl, refl), λ a b. absurd b, λ a b. refl)))
  above-IsUpdated h update (some p) ih = ih p refl

  place-Updates :
      (h : Heap n.Number) (this : ℕ) (result : Option (Matrix4 n.Number × Heap n.Number))
      → ((m : Matrix4 n.Number) × (h' : Heap n.Number) × ((result ≡ some (m, h'))
            × IsAbove n r h (h this).parent m
            × IsUpdated n r h (Above h (h this).parent) h'))
      → Updates h this (place n this result)
  place-Updates h this result (m, h', (e, t, u)) =
      let same_world : compose n m (h this).local_matrix ≡ compose n m (h' this).local_matrix =
        ap (compose n m) (sym (u.0 this).1) in
      (
        compose n m (h' this).local_matrix,
        write h' this (with_world (compose n m (h' this).local_matrix) (h' this)),
        (
          ap (place n this) e,
          subst (IsWorld n h this) same_world (IsWorld-compose n r h this (h this).parent m refl t),
          place-IsUpdated h h' this (h this).parent m refl t u,
        ),
      )

  -- getUpdatedWorldMatrix returns when the parents have no cycle (their ranks are less, rank + 1
  -- nested calls are enough). The matrix that it returns carries every vector in one step as the local
  -- matrices of the transform, its parent and so on carry it one after the other; the same holds
  -- afterwards for the world matrix of the transform and of all above it. No other transform
  -- changes, and no parent and no local matrix.
  pub get_updated_world_matrix-Updates :
      (h : Heap n.Number) (rank : ℕ → ℕ)
      → ((a p : ℕ) → (h a).parent ≡ some p → rank p < rank a)
      → (depth this : ℕ) → rank this < depth
      → Updates h this (get_updated_world_matrix n depth this h)
  unfolding get_updated_world_matrix
  get_updated_world_matrix-Updates h rank t zero this d = ground arith
  get_updated_world_matrix-Updates h rank t (suc depth) this d = place-Updates h this _ (
      above-IsUpdated h (get_updated_world_matrix n depth) (h this).parent (λ p e.
        let less = t this p e in get_updated_world_matrix-Updates h rank t depth p (omega arith)))
