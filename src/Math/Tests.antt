-- ===== src/Math/Tests.antt =====
-- The code of o3djs/math.js run on integers and on numbers modulo 7.
use toolbox.Base.{ℕ, zero, suc, ◌+◌, ◌<◌, arith, ◌≡◌, refl, List, [], ◌∷◌, length}
use toolbox.Base.Int.{ℤ, pos, negsuc, ◌+ℤ◌, ◌-ℤ◌, ◌*ℤ◌}
use toolbox.Ring.Integers.{
  integers, integers-IsRing, turns, turns-DivIsMul, quarter, quarter_sin, quarter_cos,
}
use toolbox.Ring.Residues.{
  residues, residues-IsRing, modular, modular-DivIsMul, r0, r1, r2, r3, r4, r5, r6,
}
use toolbox.Math.{
  Array3, Array4, Matrix2, Matrix3, Matrix4, array2, array3, array4, map2, map3, map4, list2, list3,
  list4,
}
use toolbox.Math.RowMajor.{mul_matrix_matrix2, mul_matrix_matrix3, mul_matrix_matrix4}
use toolbox.Math.ColumnMajor
use toolbox.Math.Matrices.{row_major_mul_matrix_matrix, column_major_mul_matrix_matrix}
use toolbox.Math.Compose.{composition, compose}
use toolbox.Math.Points.{transform_vector4}
use toolbox.Math.Motions.{identity, set_identity, translation, translate, scaling, scale}
use toolbox.Math.Rotations.{rotation_x, rotation_y, rotation_z, rotate_x, rotate_y, rotate_z}
use toolbox.Math.Turns.{rotation_zyx, rotate_zyx, axis_rotation, axis_rotate}
use toolbox.Math.Determinants.{det2, det3, det4}
use toolbox.Math.Inverses.{inverse4}
use toolbox.Math.Cofactors.{expansion, det, det_within, minor, closed_det}
use toolbox.Math.Views.{look_at, concat, sub_vector, cross, normalize, frustum, orthographic}
use toolbox.Math.Products.{rows2, rows3, rows4, mul_matrix_matrix-composition}
use toolbox.Math.Reciprocals.{inverse4-mul}
use toolbox.Math.Expansions.{first_row, det-first_row}
use toolbox.Math.InPlace.{in_place-composition}
use toolbox.Math.Orthogonal.{IsOrthogonal, rotations-IsOrthogonal}
use toolbox.Math.Eye.{gap, look_at-target}
use toolbox.Math.Corners.{projections-corners}

abbrev two_rows : Matrix2 ℤ
two_rows = array2 (array2 (pos 1) (pos 2)) (array2 (pos 3) (pos 4))

abbrev three_rows : Matrix3 ℤ
three_rows =
    array3 (array3 (pos 2) (pos 0) (pos 1)) (array3 (pos 1) (pos 3) (pos 2))
      (array3 (pos 1) (pos 1) (negsuc 0))

-- A shear, a turn and a translation; its determinant is 1.
abbrev four_rows : Matrix4 ℤ
four_rows =
    array4 (array4 (pos 0) (pos 1) (pos 0) (pos 0)) (array4 (negsuc 0) (pos 0) (pos 2) (pos 0))
      (array4 (pos 0) (pos 0) (pos 1) (pos 0)) (array4 (pos 5) (pos 6) (pos 7) (pos 1))

abbrev five_rows : List (List ℤ)
five_rows =
    (pos 1 ∷ pos 2 ∷ pos 0 ∷ pos 0 ∷ pos 0 ∷ [])
    ∷ (pos 0 ∷ pos 1 ∷ pos 0 ∷ pos 3 ∷ pos 0 ∷ [])
    ∷ (pos 0 ∷ pos 0 ∷ pos 2 ∷ pos 0 ∷ pos 0 ∷ [])
    ∷ (pos 4 ∷ pos 0 ∷ pos 0 ∷ pos 1 ∷ pos 0 ∷ [])
    ∷ (pos 0 ∷ pos 0 ∷ pos 0 ∷ pos 0 ∷ pos 1 ∷ [])
    ∷ []

abbrev vector : Array4 ℤ
vector = array4 (pos 1) (negsuc 1) (pos 3) (pos 1)

abbrev angles : Array3 ℤ
angles = array3 (pos 1) (pos 2) (pos 3)

abbrev x_axis : Array3 ℤ
x_axis = array3 (pos 1) (pos 0) (pos 0)

abbrev above_eye : Array3 ℤ
above_eye = array3 (pos 0) (pos 1) (pos 0)

abbrev eye_point : Array3 ℤ
eye_point = array3 (pos 3) (pos 4) (pos 1)

abbrev target_point : Array3 ℤ
target_point = array3 (pos 3) (pos 4) (pos 0)

inverse4-mul_example :
    (mul_matrix_matrix4 integers (inverse4 turns four_rows) four_rows ≡ identity integers)
    × (mul_matrix_matrix4 integers four_rows (inverse4 turns four_rows) ≡ identity integers)
unfolding det4 ◌+ℤ◌ ◌-ℤ◌ ◌*ℤ◌
inverse4-mul_example = inverse4-mul turns integers-IsRing four_rows refl

-- The determinant by an expansion of the first row.
det_test : det integers (pos 0) five_rows ≡ pos 50
unfolding det det_within expansion minor closed_det det4 ◌+ℤ◌ ◌-ℤ◌ ◌*ℤ◌
det_test = refl

in_place-composition_example :
    (translate integers four_rows angles
      ≡ composition integers four_rows (translation integers angles))
    × (scale integers four_rows angles ≡ composition integers four_rows (scaling integers angles))
    × (rotate_x turns four_rows (pos 1) ≡ composition integers four_rows (rotation_x turns (pos 1)))
    × (rotate_y turns four_rows (pos 1) ≡ composition integers four_rows (rotation_y turns (pos 1)))
    × (rotate_z turns four_rows (pos 1) ≡ composition integers four_rows (rotation_z turns (pos 1)))
    × (rotate_zyx turns four_rows angles
        ≡ composition integers four_rows (rotation_zyx turns angles))
    × (axis_rotate turns four_rows angles (pos 1)
        ≡ composition integers four_rows (axis_rotation turns angles (pos 1)))
    × (set_identity integers four_rows ≡ identity integers)
    × (rotation_zyx turns angles
        ≡ composition integers
            (rotation_z turns (pos 3))
            (composition integers (rotation_y turns (pos 2)) (rotation_x turns (pos 1))))
in_place-composition_example = in_place-composition turns integers-IsRing four_rows angles (pos 1)

-- Quarter turns: each has a sine and a cosine with squares of sum one.
quarter_of : (a : ℤ) → quarter a < 4
quarter_of (pos k) = omega arith
quarter_of (negsuc k) = omega arith

circle_at :
    (k : ℕ) → k < 4 → quarter_cos k *ℤ quarter_cos k +ℤ quarter_sin k *ℤ quarter_sin k ≡ pos 1
unfolding ◌+ℤ◌ ◌*ℤ◌
circle_at zero h = refl
circle_at (suc zero) h = refl
circle_at (suc (suc zero)) h = refl
circle_at (suc (suc (suc zero))) h = refl
circle_at (suc (suc (suc (suc k)))) h = ground arith

quarter_circle : (a : ℤ) → turns.cos a *ℤ turns.cos a +ℤ turns.sin a *ℤ turns.sin a ≡ pos 1
quarter_circle a = circle_at (quarter a) (quarter_of a)

rotations-IsOrthogonal_example :
    IsOrthogonal integers (rotation_x turns (pos 1))
    × IsOrthogonal integers (rotation_y turns (pos 1))
    × IsOrthogonal integers (rotation_z turns (pos 1))
    × IsOrthogonal integers (rotation_zyx turns angles)
    × IsOrthogonal integers (axis_rotation turns x_axis (pos 1))
unfolding ◌+ℤ◌ ◌*ℤ◌
rotations-IsOrthogonal_example =
    rotations-IsOrthogonal turns integers-IsRing (pos 1) angles x_axis quarter_circle refl

look_at-target_example :
    (transform_vector4 integers
        (look_at turns eye_point target_point above_eye)
        (concat turns eye_point (pos 1))
      ≡ array4 (pos 0) (pos 0) (pos 0) (pos 1))
    × (transform_vector4 integers
          (look_at turns eye_point target_point above_eye)
          (concat turns target_point (pos 1))
        ≡ array4
            (pos 0)
            (pos 0)
            (integers.neg (gap turns integers-IsRing eye_point target_point))
            (pos 1))
unfolding det4 normalize cross sub_vector ◌+ℤ◌ ◌-ℤ◌ ◌*ℤ◌
look_at-target_example =
    look_at-target turns integers-IsRing turns-DivIsMul eye_point target_point above_eye refl refl

projections-corners_example :
    let image = transform_vector4 residues (frustum modular r6 r1 r5 r2 r1 r3) in
    let straight = transform_vector4 residues (orthographic modular r6 r1 r5 r2 r1 r3) in
    (image (array4 r6 r5 (residues.neg r1) r1) ≡ array4 (residues.neg r1) (residues.neg r1) r0 r1)
    × (image (array4 r1 r2 (residues.neg r1) r1) ≡ array4 r1 r1 r0 r1)
    × ((image (array4 r4 r5 (residues.neg r3) r1)).at2 ≡ r3)
    × ((image (array4 r4 r5 (residues.neg r3) r1)).at3 ≡ r3)
    × (straight (array4 r6 r5 (residues.neg r1) r1)
        ≡ array4 (residues.neg r1) (residues.neg r1) r0 r1)
    × (straight (array4 r1 r2 (residues.neg r3) r1) ≡ array4 r1 r1 r1 r1)
projections-corners_example =
    projections-corners modular residues-IsRing modular-DivIsMul r6 r1 r5 r2 r1 r3 r4 r5 refl refl
      refl refl refl

mul_matrix_matrix-composition_example :
    (row_major_mul_matrix_matrix integers (pos 0) (rows2 two_rows) (rows2 two_rows)
      ≡ rows2 (mul_matrix_matrix2 integers two_rows two_rows))
    × (column_major_mul_matrix_matrix integers (pos 0) (rows2 two_rows) (rows2 two_rows)
        ≡ rows2 (ColumnMajor.mul_matrix_matrix2 integers two_rows two_rows))
    × (row_major_mul_matrix_matrix integers (pos 0) (rows3 three_rows) (rows3 three_rows)
        ≡ rows3 (mul_matrix_matrix3 integers three_rows three_rows))
    × (column_major_mul_matrix_matrix integers (pos 0) (rows3 three_rows) (rows3 three_rows)
        ≡ rows3 (ColumnMajor.mul_matrix_matrix3 integers three_rows three_rows))
    × (row_major_mul_matrix_matrix integers (pos 0) (rows4 four_rows) (rows4 four_rows)
        ≡ rows4 (mul_matrix_matrix4 integers four_rows four_rows))
    × (column_major_mul_matrix_matrix integers (pos 0) (rows4 four_rows) (rows4 four_rows)
        ≡ rows4 (ColumnMajor.mul_matrix_matrix4 integers four_rows four_rows))
    × (composition integers four_rows four_rows ≡ mul_matrix_matrix4 integers four_rows four_rows)
    × (composition integers four_rows four_rows
        ≡ ColumnMajor.mul_matrix_matrix4 integers four_rows four_rows)
    × (compose integers four_rows four_rows ≡ composition integers four_rows four_rows)
    × (composition integers (composition integers four_rows four_rows) four_rows
        ≡ composition integers four_rows (composition integers four_rows four_rows))
    × (transform_vector4 integers (composition integers four_rows four_rows) vector
        ≡ transform_vector4 integers four_rows (transform_vector4 integers four_rows vector))
mul_matrix_matrix-composition_example =
    mul_matrix_matrix-composition integers integers-IsRing (pos 0) two_rows two_rows three_rows
      three_rows four_rows four_rows four_rows vector

det-first_row_example :
    (det integers (pos 0) five_rows ≡ first_row integers (pos 0) five_rows)
    × ((k : ℕ)
        → det_within integers (pos 0) (k + length five_rows) five_rows
          ≡ det integers (pos 0) five_rows)
    × (first_row integers (pos 0) (list2 (map2 list2 two_rows)) ≡ det2 integers two_rows)
    × (first_row integers (pos 0) (list3 (map3 list3 three_rows)) ≡ det3 integers three_rows)
    × (first_row integers (pos 0) (list4 (map4 list4 four_rows)) ≡ det4 integers four_rows)
det-first_row_example =
    det-first_row integers integers-IsRing (pos 0) five_rows two_rows three_rows four_rows
      (ground arith)
