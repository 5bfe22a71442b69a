-- ===== src/BoundingBox.antt =====
-- o3d-webgl/bounding_box.js: boxes along the axes.
pub mod Fitted
pub mod Frustum
mod Tests
use toolbox.Base.{
  ℕ, Bool, true, false, not, ◌&&◌, ◌||◌, List, [], ◌∷◌, map, if◌then◌else◌, Option, none, some,
}
use toolbox.Ring.{Numbers, Reals}
use toolbox.Math.{Array3, Matrix4, array3}
use toolbox.Transform.Matrices.{transform_point}

pub record Box (N : Type 0) : Type 0 where
  pub min_extent : Array3 N
  pub max_extent : Array3 N
  pub valid : Bool

abbrev given : {A : Type 0} → A → Option A → A
given x none = x
given x (some y) = y

abbrev is_given : {A : Type 0} → Option A → Bool
is_given none = false
is_given (some y) = true

-- The constructor of BoundingBox; it is valid if both extents are given.
unfoldable pub new_box : {N : Type 0} → N → Option (Array3 N) → Option (Array3 N) → Box N
new_box zero lo hi = record {
  min_extent = given (array3 zero zero zero) lo;
  max_extent = given (array3 zero zero zero) hi;
  valid = is_given lo && is_given hi;
}

-- Over numbers with the code's `<`.
module _ {N : Type 0} (less : N → N → Bool) where
  -- Math.min and Math.max.
  abbrev pub min : N → N → N
  min a b = if less b a then b else a

  abbrev pub max : N → N → N
  max a b = if less a b then b else a

  abbrev pub min3 : Array3 N → Array3 N → Array3 N
  min3 p q = array3 (min p.at0 q.at0) (min p.at1 q.at1) (min p.at2 q.at2)

  abbrev pub max3 : Array3 N → Array3 N → Array3 N
  max3 p q = array3 (max p.at0 q.at0) (max p.at1 q.at1) (max p.at2 q.at2)

  -- The loop over the points after the first, for the three indices side by side.
  unfoldable pub widen : Box N → List (Array3 N) → Box N
  widen target [] = target
  widen target (p ∷ points) =
      widen
        (record {
          min_extent = min3 target.min_extent p;
          max_extent = max3 target.max_extent p;
          valid = target.valid;
        })
        points

  -- fitBoxToPoints_ without a target, for a first point and the others.
  unfoldable pub fit_box_to_points : Array3 N → List (Array3 N) → Box N
  fit_box_to_points p points =
      let target = widen (record { min_extent = p; max_extent = p; valid = false }) points in
      record { min_extent = target.min_extent; max_extent = target.max_extent; valid = true }

  -- What the constructor makes of the two extents.
  unfoldable pub add : Box N → Box N → Box N
  add this box = record {
    min_extent = min3 box.min_extent this.min_extent;
    max_extent = max3 box.max_extent this.max_extent;
    valid = true;
  }

module _ {N : Type 0} where
  -- The corners after the first, which is the smallest extent.
  unfoldable pub other_corners : Box N → List (Array3 N)
  other_corners b =
      let lo = b.min_extent in
      let hi = b.max_extent in
      array3 lo.at0 lo.at1 hi.at2
      ∷ array3 lo.at0 hi.at1 lo.at2
      ∷ array3 lo.at0 hi.at1 hi.at2
      ∷ array3 hi.at0 lo.at1 lo.at2
      ∷ array3 hi.at0 lo.at1 hi.at2
      ∷ array3 hi.at0 hi.at1 lo.at2
      ∷ array3 hi.at0 hi.at1 hi.at2
      ∷ []

  unfoldable pub corners : Box N → List (Array3 N)
  corners b = b.min_extent ∷ other_corners b

-- `&` of two numbers of as many bits.
abbrev pub bit_and : List Bool → List Bool → List Bool
bit_and [] b = []
bit_and (x ∷ a) [] = []
bit_and (x ∷ a) (y ∷ b) = (x && y) ∷ bit_and a b

abbrev pub is_zero : List Bool → Bool
is_zero [] = true
is_zero (x ∷ a) = not x && is_zero a

module _ (f : Reals) (less : f.numbers.Number → f.numbers.Number → Bool) where
  open f use {numbers}
  open numbers use {Number, zero, one, neg}

  unfoldable pub mul : Matrix4 Number → Box Number → Box Number
  mul matrix b =
      fit_box_to_points less (transform_point f matrix b.min_extent)
        (map (transform_point f matrix) (other_corners b))

  -- The six bits of a point, from the lowest.
  abbrev pub outside_bits : Array3 Number → List Bool
  outside_bits p =
      less one p.at0
      ∷ less p.at0 (neg one)
      ∷ less one p.at1
      ∷ less p.at1 (neg one)
      ∷ less one p.at2
      ∷ less p.at2 zero
      ∷ []

  unfoldable pub in_frustum_loop : Matrix4 Number → List Bool → List (Array3 Number) → Bool
  in_frustum_loop matrix bb_test [] = is_zero bb_test
  in_frustum_loop matrix bb_test (c ∷ cs) =
      let next = bit_and bb_test (outside_bits (transform_point f matrix c)) in
      let rest = in_frustum_loop matrix next cs in if is_zero next then true else rest

  unfoldable pub in_frustum : Matrix4 Number → Box Number → Bool
  in_frustum matrix b =
      in_frustum_loop matrix (true ∷ true ∷ true ∷ true ∷ true ∷ true ∷ []) (corners b)
