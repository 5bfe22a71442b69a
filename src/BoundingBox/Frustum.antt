-- ===== src/BoundingBox/Frustum.antt =====
-- inFrustum of o3d-webgl/bounding_box.js beside a test of each plane.
use toolbox.Base.{
  ◌≡◌, refl, sym, ap, ◌∙◌, Bool, true, false, not, ◌&&◌, ◌||◌, List, [], ◌∷◌, map, Bool-cases, inl,
  inr, arith,
}
use toolbox.Ring.{Reals}
use toolbox.Math.{Array3, Matrix4}
use toolbox.Transform.Matrices.{transform_point}
use toolbox.BoundingBox.{Box, corners, outside_bits, bit_and, is_zero, in_frustum_loop, in_frustum}

abbrev pub all : {A : Type 0} → (A → Bool) → List A → Bool
all t [] = true
all t (x ∷ l) = t x && all t l

abbrev pub any : {A : Type 0} → (A → Bool) → List A → Bool
any t [] = false
any t (x ∷ l) = t x || any t l

bit_and_assoc : (a b c : List Bool) → bit_and a (bit_and b c) ≡ bit_and (bit_and a b) c
bit_and_assoc [] b c = refl
bit_and_assoc (x ∷ a) [] c = refl
bit_and_assoc (x ∷ a) (y ∷ b) [] = refl
bit_and_assoc (x ∷ a) (y ∷ b) (z ∷ c) =
    let head : (x && (y && z)) ≡ ((x && y) && z) = ground arith in
    let tail = bit_and_assoc a b c in λ i. head i ∷ tail i

bit_and-true : (l : List Bool) → bit_and l (map (λ x. true) l) ≡ l
bit_and-true [] = refl
bit_and-true (x ∷ l) =
    let head : (x && true) ≡ x = ground arith in let tail = bit_and-true l in λ i. head i ∷ tail i

is_zero-bit_and : (a b : List Bool) → is_zero a ≡ true → is_zero (bit_and a b) ≡ true
is_zero-bit_and [] b h = refl
is_zero-bit_and (x ∷ a) [] h = refl
is_zero-bit_and (x ∷ a) (y ∷ b) h =
    let head : not (x && y) ≡ true = ground arith in
    let tail = is_zero-bit_and a b (ground arith) in ground arith

is_zero-map : {A : Type 0} (t : A → Bool) (l : List A) → is_zero (map t l) ≡ not (any t l)
is_zero-map t [] = refl
is_zero-map t (x ∷ l) = let tail = is_zero-map t l in ground arith

-- Six bits.
abbrev ones : List Bool
ones = true ∷ true ∷ true ∷ true ∷ true ∷ true ∷ []

module _ (f : Reals) (less : f.numbers.Number → f.numbers.Number → Bool) where
  open f use {numbers}
  open numbers use {Number, zero, one, neg}

  -- The planes of the unit box, by the points beyond them.
  abbrev pub planes : List (Array3 Number → Bool)
  planes =
      (λ p. less one p.at0)
      ∷ (λ p. less p.at0 (neg one))
      ∷ (λ p. less one p.at1)
      ∷ (λ p. less p.at1 (neg one))
      ∷ (λ p. less one p.at2)
      ∷ (λ p. less p.at2 zero)
      ∷ []

  -- For each plane: all of these points are beyond it.
  abbrev beyond : List (Array3 Number) → List Bool
  beyond points = map (λ t. all t points) planes

  in_frustum_loop-beyond :
      (matrix : Matrix4 Number) (bits : List Bool) (cs : List (Array3 Number))
      → bit_and bits ones ≡ bits
      → in_frustum_loop f less matrix bits cs
        ≡ is_zero (bit_and bits (beyond (map (transform_point f matrix) cs)))
  unfolding in_frustum_loop
  in_frustum_loop-beyond matrix bits [] h = ap is_zero (sym h)
  in_frustum_loop-beyond matrix bits (c ∷ cs) h =
      let p = transform_point f matrix c in
      let next = bit_and bits (outside_bits f less p) in
      let others = beyond (map (transform_point f matrix) cs) in
      let kept : bit_and next ones ≡ next =
        sym (bit_and_assoc bits (outside_bits f less p) ones)
        ∙ ap (bit_and bits) (bit_and-true (outside_bits f less p)) in
      let regrouped = ap is_zero (bit_and_assoc bits (outside_bits f less p) others) in
      elim (Bool-cases (is_zero next)) [
        | inl t ↦ rw t (sym (regrouped ∙ is_zero-bit_and next others t))
        | inr t ↦ rw t (in_frustum_loop-beyond matrix next cs kept ∙ sym regrouped)
      ]

  -- inFrustum is false just when all corners of the box, after transformPoint, are beyond one and the
  -- same of the six planes of the unit box (x and y from -1 to 1, z from 0 to 1): the early return in
  -- its loop changes no result.
  pub in_frustum-beyond :
      (matrix : Matrix4 Number) (b : Box Number)
      → in_frustum f less matrix b
        ≡ not (any (λ t. all t (map (transform_point f matrix) (corners b))) planes)
  unfolding in_frustum
  in_frustum-beyond matrix b =
      in_frustum_loop-beyond matrix ones (corners b) refl
      ∙ is_zero-map (λ t. all t (map (transform_point f matrix) (corners b))) planes
