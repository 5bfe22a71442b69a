-- ===== src/BoundingBox/Tests.antt =====
-- The code of o3d-webgl/bounding_box.js run on integers.
use toolbox.Base.{◌≡◌, refl, true, false, not, List, [], ◌∷◌, map, arith}
use toolbox.Base.Int.{ℤ, pos, negsuc, ltb_ℤ, ◌*ℤ◌, ◌+ℤ◌, ◌-ℤ◌}
use toolbox.Ring.Integers.{turns}
use toolbox.Math.{Array3, Matrix4, array3, array4}
use toolbox.Transform.Matrices.{transform_point}
use toolbox.BoundingBox.{
  Box, fit_box_to_points, add, corners, in_frustum, in_frustum_loop, widen, other_corners,
}
use toolbox.BoundingBox.Frustum.{all, any, planes, in_frustum-beyond}
use toolbox.BoundingBox.Fitted.{IsOrder, ContainsAll, Covers, fitted-Covers}

integers-IsOrder : IsOrder ltb_ℤ
integers-IsOrder = record {
  irreflexive = λ a. ground arith;
  not_both = λ a b h. ground arith;
  transitive = λ a b c h g. ground arith;
}

abbrev first_point : Array3 ℤ
first_point = array3 (pos 3) (negsuc 0) (pos 2)

abbrev other_points : List (Array3 ℤ)
other_points = array3 (pos 0) (pos 4) (pos 2) ∷ array3 (pos 1) (pos 1) (negsuc 6) ∷ []

abbrev unit_box : Box ℤ
unit_box = record {
  min_extent = array3 (negsuc 0) (negsuc 0) (negsuc 0);
  max_extent = array3 (pos 1) (pos 1) (pos 1);
  valid = true;
}

abbrev far_box : Box ℤ
far_box = record {
  min_extent = array3 (pos 0) (pos 5) (pos 0);
  max_extent = array3 (pos 1) (pos 6) (pos 1);
  valid = true;
}

abbrev doubled : Matrix4 ℤ
doubled =
    array4 (array4 (pos 2) (pos 0) (pos 0) (pos 0)) (array4 (pos 0) (pos 2) (pos 0) (pos 0))
      (array4 (pos 0) (pos 0) (pos 2) (pos 0)) (array4 (pos 0) (pos 0) (pos 0) (pos 1))

fit_box_run : fit_box_to_points ltb_ℤ first_point other_points ≡ record {
  min_extent = array3 (pos 0) (negsuc 0) (negsuc 6);
  max_extent = array3 (pos 3) (pos 4) (pos 2);
  valid = true;
}
unfolding fit_box_to_points widen
fit_box_run = refl

frustum_far : in_frustum turns ltb_ℤ doubled far_box ≡ false
unfolding in_frustum in_frustum_loop corners other_corners transform_point ◌*ℤ◌ ◌+ℤ◌ ◌-ℤ◌
frustum_far = refl

in_frustum-beyond_example :
    in_frustum turns ltb_ℤ doubled far_box
    ≡ not (
        any
          (λ t. all t (map (transform_point turns doubled) (corners far_box)))
          (planes turns ltb_ℤ))
in_frustum-beyond_example = in_frustum-beyond turns ltb_ℤ doubled far_box

fitted-Covers_example :
    ContainsAll ltb_ℤ
      (fit_box_to_points ltb_ℤ first_point other_points)
      (first_point ∷ other_points)
    × ((c : Box ℤ)
        → ContainsAll ltb_ℤ c (first_point ∷ other_points)
        → Covers ltb_ℤ c (fit_box_to_points ltb_ℤ first_point other_points))
    × Covers ltb_ℤ (add ltb_ℤ unit_box far_box) unit_box
    × Covers ltb_ℤ (add ltb_ℤ unit_box far_box) far_box
    × ((c : Box ℤ)
        → Covers ltb_ℤ c unit_box
        → Covers ltb_ℤ c far_box
        → Covers ltb_ℤ c (add ltb_ℤ unit_box far_box))
    × ((fit_box_to_points ltb_ℤ first_point other_points).valid ≡ true)
    × ((add ltb_ℤ unit_box far_box).valid ≡ true)
fitted-Covers_example =
    fitted-Covers ltb_ℤ integers-IsOrder first_point other_points unit_box far_box
