-- ===== src/Transform/Tests.antt =====
-- The code of o3d-webgl/transform.js run on integers and on small trees.
use toolbox.Base.{
  ℕ, zero, suc, ◌<◌, ◌≤◌, ◌↔◌, ◌≡◌, refl, arith, List, [], ◌∷◌, Option, none, some, true, false,
  if◌then◌else◌, ◌==◌,
}
use toolbox.Base.Int.{ℤ, pos, negsuc}
use mathlib.Core.Path.{subst}
use toolbox.Base.Arrays.{count}
use toolbox.Ring.Integers.{integers, integers-IsRing, turns}
use toolbox.Math.{Array3, Array4, Matrix4, array3, array4}
use toolbox.Math.Compose
use toolbox.Math.Inverses.{inverse4}
use toolbox.Math.Points
use toolbox.Math.Motions
use toolbox.Math.Rotations
use toolbox.Math.Turns
use toolbox.Math.Matrices
use toolbox.Math.Products.{rows4}
use toolbox.Transform.Matrices.{
  compose, transpose, inverse, multiply_vector, transform_point, transform_point_z_only,
}
use toolbox.Transform.Local.{
  identity, translate, scale, rotate_x, rotate_y, rotate_z, rotate_zyx, axis_rotate,
  quaternion_rotate,
}
use toolbox.Quaternions.{quaternion_to_rotation}
use toolbox.Transform.SameAsMath.{transform_same}
use toolbox.Transform.Tree.{
  Node, Heap, set_parent, get_transforms_in_tree, collect, collect_each, unit_matrix,
}
use toolbox.Transform.Tree.Consistent.{IsConsistent, set_parent-IsConsistent}
use toolbox.Transform.Tree.Reached.{IsRanked, Reaches, get_transforms_in_tree-Reaches}
use toolbox.Transform.Tree.Cycle.{set_parent-cycle}
use toolbox.Transform.World.{get_updated_world_matrix}
use toolbox.Transform.World.Carried.{Updates, get_updated_world_matrix-Updates}

abbrev sample : Matrix4 ℤ
sample =
    array4 (array4 (pos 0) (pos 1) (pos 0) (pos 0)) (array4 (negsuc 0) (pos 0) (pos 2) (pos 0))
      (array4 (pos 0) (pos 0) (pos 1) (pos 0)) (array4 (pos 5) (pos 6) (pos 7) (pos 1))

abbrev angles : Array3 ℤ
angles = array3 (pos 1) (pos 2) (pos 3)

abbrev quaternion : Array4 ℤ
quaternion = array4 (pos 0) (pos 1) (pos 0) (pos 0)

-- Transform 0 has the child 1, which has the child 2; all others are alone.
abbrev lone : Option ℕ → List ℕ → Node ℤ
lone p l = record {
  parent = p;
  children = l;
  shapes = [];
  local_matrix = sample;
  world_matrix = unit_matrix integers;
  visible = true;
  bounding_box = none;
  cull = false;
}

abbrev line : Heap ℤ
line zero = lone none (1 ∷ [])
line (suc zero) = lone (some 0) (2 ∷ [])
line (suc (suc zero)) = lone (some 1) []
line (suc (suc (suc a))) = lone none []

line-IsConsistent : IsConsistent line
line-IsConsistent zero zero = refl
line-IsConsistent zero (suc zero) = refl
line-IsConsistent zero (suc (suc zero)) = refl
line-IsConsistent zero (suc (suc (suc b))) = ground arith
line-IsConsistent (suc zero) zero = refl
line-IsConsistent (suc zero) (suc zero) = refl
line-IsConsistent (suc zero) (suc (suc zero)) = refl
line-IsConsistent (suc zero) (suc (suc (suc b))) = ground arith
line-IsConsistent (suc (suc zero)) zero = refl
line-IsConsistent (suc (suc zero)) (suc zero) = refl
line-IsConsistent (suc (suc zero)) (suc (suc zero)) = refl
line-IsConsistent (suc (suc zero)) (suc (suc (suc b))) = ground arith
line-IsConsistent (suc (suc (suc a))) zero = ground arith
line-IsConsistent (suc (suc (suc a))) (suc zero) = ground arith
line-IsConsistent (suc (suc (suc a))) (suc (suc zero)) = ground arith
line-IsConsistent (suc (suc (suc a))) (suc (suc (suc b))) = ground arith

abbrev height : ℕ → ℕ
height zero = 2
height (suc zero) = 1
height (suc (suc a)) = 0

line-IsRanked : IsRanked height line
line-IsRanked zero b e = cc
line-IsRanked (suc zero) b e = let same : 0 ≡ b = cc in subst (λ x. 1 < height x) same (omega arith)
line-IsRanked (suc (suc zero)) b e =
    let same : 1 ≡ b = cc in subst (λ x. 0 < height x) same (omega arith)
line-IsRanked (suc (suc (suc a))) b e = cc

abbrev level : ℕ → ℕ
level zero = 0
level (suc zero) = 1
level (suc (suc a)) = 2

line_levels : (a p : ℕ) → (line a).parent ≡ some p → level p < level a
line_levels zero b e = cc
line_levels (suc zero) b e = let same : 0 ≡ b = cc in subst (λ x. level x < 1) same (omega arith)
line_levels (suc (suc zero)) b e =
    let same : 1 ≡ b = cc in subst (λ x. level x < 2) same (omega arith)
line_levels (suc (suc (suc a))) b e = cc

tree_test : get_transforms_in_tree 4 line 0 ≡ some (0 ∷ 1 ∷ 2 ∷ [])
unfolding get_transforms_in_tree collect collect_each
tree_test = refl

transform_same_example :
    (compose integers sample sample ≡ Compose.composition integers sample sample)
    × (inverse turns sample ≡ inverse4 turns sample)
    × (multiply_vector integers sample quaternion
        ≡ Points.transform_vector4 integers sample quaternion)
    × (transform_point turns sample angles ≡ Points.transform_point turns sample angles)
    × (transform_point_z_only turns sample angles
        ≡ (Points.transform_point turns sample angles).at2)
    × (rows4 (transpose integers sample) ≡ Matrices.transpose integers (pos 0) (rows4 sample))
    × (identity integers sample ≡ Motions.set_identity integers sample)
    × (translate integers sample angles ≡ Motions.translate integers sample angles)
    × (scale integers sample angles ≡ Motions.scale integers sample angles)
    × (rotate_x turns sample (pos 1) ≡ Rotations.rotate_x turns sample (pos 1))
    × (rotate_y turns sample (pos 1) ≡ Rotations.rotate_y turns sample (pos 1))
    × (rotate_z turns sample (pos 1) ≡ Rotations.rotate_z turns sample (pos 1))
    × (rotate_zyx turns sample angles ≡ Turns.rotate_zyx turns sample angles)
    × (axis_rotate turns sample angles (pos 1) ≡ Turns.axis_rotate turns sample angles (pos 1))
    × (quaternion_rotate turns sample quaternion
        ≡ Compose.composition integers sample (quaternion_to_rotation turns quaternion))
transform_same_example = transform_same turns (pos 0) sample sample angles quaternion (pos 1)

set_parent-IsConsistent_example :
    IsConsistent (set_parent 2 (some 0) line)
    × ((a : ℕ)
        → (set_parent 2 (some 0) line a).parent ≡ (if 2 == a then (some 0) else (line a).parent))
set_parent-IsConsistent_example = set_parent-IsConsistent line 2 (some 0) line-IsConsistent

set_parent-cycle_example :
    ((set_parent 1 (some 1) line 1).parent ≡ some 1)
    × ((depth : ℕ) → get_transforms_in_tree depth (set_parent 1 (some 1) line) 1 ≡ none)
set_parent-cycle_example = set_parent-cycle line 1 line-IsConsistent

get_transforms_in_tree-Reaches_example :
    (l : List ℕ) × ((get_transforms_in_tree 3 line 0 ≡ some l)
      × ((a : ℕ) → (1 ≤ count a l) ↔ Reaches line a 0))
get_transforms_in_tree-Reaches_example =
    get_transforms_in_tree-Reaches line height line-IsConsistent line-IsRanked 3 0 (omega arith)

get_updated_world_matrix-Updates_example :
    Updates integers integers-IsRing line 2 (get_updated_world_matrix integers 3 2 line)
get_updated_world_matrix-Updates_example =
    get_updated_world_matrix-Updates integers integers-IsRing line level line_levels 3 2
      (omega arith)
