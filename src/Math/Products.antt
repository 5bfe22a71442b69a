-- ===== src/Math/Products.antt =====
-- The products of matrices of o3djs/math.js compared with one another.
use toolbox.Base.{◌≡◌, refl, ap, ◌++◌, List}
use toolbox.Ring.{Numbers, IsRing}
use toolbox.Ring.Expressions.{expressions, nil, times}
use toolbox.Ring.Solver.{solve}
use toolbox.Math.{
  Array4, Matrix2, Matrix3, Matrix4, map2, map3, map4, list2, list3, list4, list2, entries2,
  entries3, entries4,
}
use toolbox.Math.Symbolic.{
  variables4, variables22, variables33, variables44, solve4, solve22, solve33, solve44, values,
}
use toolbox.Math.Matrices.{row_major_mul_matrix_matrix, column_major_mul_matrix_matrix}
use toolbox.Math.RowMajor.{mul_matrix_matrix2, mul_matrix_matrix3, mul_matrix_matrix4}
use toolbox.Math.ColumnMajor
use toolbox.Math.Cofactors.{square2, square3, square4}
use toolbox.Math.Determinants.{det2, det3}
use toolbox.Math.Compose.{composition, compose}
use toolbox.Math.Points.{transform_vector4}

abbrev pub rows2 : {A : Type 0} → Matrix2 A → List (List A)
rows2 m = list2 (map2 list2 m)

abbrev pub rows3 : {A : Type 0} → Matrix3 A → List (List A)
rows3 m = list3 (map3 list3 m)

abbrev pub rows4 : {A : Type 0} → Matrix4 A → List (List A)
rows4 m = list4 (map4 list4 m)

module _ (n : Numbers) (r : IsRing n) where
  mul_matrix_matrix2-loop :
      (undefined : n.Number) (a b : Matrix2 n.Number)
      → (row_major_mul_matrix_matrix n undefined (rows2 a) (rows2 b)
          ≡ rows2 (mul_matrix_matrix2 n a b))
        × (column_major_mul_matrix_matrix n undefined (rows2 a) (rows2 b)
            ≡ rows2 (ColumnMajor.mul_matrix_matrix2 n a b))
  unfolding mul_matrix_matrix2 ColumnMajor.mul_matrix_matrix2 row_major_mul_matrix_matrix
      column_major_mul_matrix_matrix
  mul_matrix_matrix2-loop undefined a b =
      let x = variables22 0 in
      let y = variables22 4 in
      let l = entries2 a ++ entries2 b in
      (
        ap rows2 (
            solve22 n r l
              (square2 expressions nil
                (row_major_mul_matrix_matrix expressions nil (rows2 x) (rows2 y)))
              (mul_matrix_matrix2 expressions x y) refl),
        ap rows2 (
            solve22 n r l
              (square2 expressions nil
                (column_major_mul_matrix_matrix expressions nil (rows2 x) (rows2 y)))
              (ColumnMajor.mul_matrix_matrix2 expressions x y) refl),
      )

  mul_matrix_matrix3-loop :
      (undefined : n.Number) (a b : Matrix3 n.Number)
      → (row_major_mul_matrix_matrix n undefined (rows3 a) (rows3 b)
          ≡ rows3 (mul_matrix_matrix3 n a b))
        × (column_major_mul_matrix_matrix n undefined (rows3 a) (rows3 b)
            ≡ rows3 (ColumnMajor.mul_matrix_matrix3 n a b))
  unfolding mul_matrix_matrix3 ColumnMajor.mul_matrix_matrix3 row_major_mul_matrix_matrix
      column_major_mul_matrix_matrix
  mul_matrix_matrix3-loop undefined a b =
      let x = variables33 0 in
      let y = variables33 9 in
      let l = entries3 a ++ entries3 b in
      (
        ap rows3 (
            solve33 n r l
              (square3 expressions nil
                (row_major_mul_matrix_matrix expressions nil (rows3 x) (rows3 y)))
              (mul_matrix_matrix3 expressions x y) refl),
        ap rows3 (
            solve33 n r l
              (square3 expressions nil
                (column_major_mul_matrix_matrix expressions nil (rows3 x) (rows3 y)))
              (ColumnMajor.mul_matrix_matrix3 expressions x y) refl),
      )

  mul_matrix_matrix4-loop :
      (undefined : n.Number) (a b : Matrix4 n.Number)
      → (row_major_mul_matrix_matrix n undefined (rows4 a) (rows4 b)
          ≡ rows4 (mul_matrix_matrix4 n a b))
        × (column_major_mul_matrix_matrix n undefined (rows4 a) (rows4 b)
            ≡ rows4 (ColumnMajor.mul_matrix_matrix4 n a b))
  unfolding mul_matrix_matrix4 ColumnMajor.mul_matrix_matrix4 row_major_mul_matrix_matrix
      column_major_mul_matrix_matrix
  mul_matrix_matrix4-loop undefined a b =
      let x = variables44 0 in
      let y = variables44 16 in
      let l = entries4 a ++ entries4 b in
      (
        ap rows4 (
            solve44 n r l
              (square4 expressions nil
                (row_major_mul_matrix_matrix expressions nil (rows4 x) (rows4 y)))
              (mul_matrix_matrix4 expressions x y) refl),
        ap rows4 (
            solve44 n r l
              (square4 expressions nil
                (column_major_mul_matrix_matrix expressions nil (rows4 x) (rows4 y)))
              (ColumnMajor.mul_matrix_matrix4 expressions x y) refl),
      )

  pub composition-mul : (a b : Matrix4 n.Number) → composition n a b ≡ mul_matrix_matrix4 n b a
  unfolding composition mul_matrix_matrix4
  composition-mul a b =
      let x = variables44 0 in
      let y = variables44 16 in
      solve44 n r (entries4 a ++ entries4 b) (composition expressions x y)
        (mul_matrix_matrix4 expressions y x) refl

  pub composition_assoc :
      (a b c : Matrix4 n.Number)
      → composition n (composition n a b) c ≡ composition n a (composition n b c)
  unfolding composition
  composition_assoc a b c =
      let x = variables44 0 in
      let y = variables44 16 in
      let z = variables44 32 in
      solve44 n r (entries4 a ++ entries4 b ++ entries4 c)
        (composition expressions (composition expressions x y) z)
        (composition expressions x (composition expressions y z)) refl

  transform_vector4-composition :
      (a b : Matrix4 n.Number) (v : Array4 n.Number)
      → transform_vector4 n (composition n a b) v ≡ transform_vector4 n a (transform_vector4 n b v)
  unfolding composition transform_vector4
  transform_vector4-composition a b v =
      let x = variables44 0 in
      let y = variables44 16 in
      let u = variables4 32 in
      solve4 n r (entries4 a ++ entries4 b ++ list4 v)
        (transform_vector4 expressions (composition expressions x y) u)
        (transform_vector4 expressions x (transform_vector4 expressions y u)) refl

  -- The unrolled products of matrices of 2, 3 and 4 rows, mulMatrixMatrix2 to mulMatrixMatrix4, are
  -- the results of the loops of mulMatrixMatrix, in row major and in column major order.
  -- matrix4.composition(a, b) is the row major product of b and a and the column major product of a
  -- and b, it is what matrix4.compose(a, b) puts into a, it is associative, and a vector that
  -- transformVector4 takes through composition(a, b) goes through b and then through a.
  pub mul_matrix_matrix-composition :
      (undefined : n.Number) (a2 b2 : Matrix2 n.Number) (a3 b3 : Matrix3 n.Number)
      (a b c : Matrix4 n.Number) (v : Array4 n.Number)
      → (row_major_mul_matrix_matrix n undefined (rows2 a2) (rows2 b2)
          ≡ rows2 (mul_matrix_matrix2 n a2 b2))
        × (column_major_mul_matrix_matrix n undefined (rows2 a2) (rows2 b2)
            ≡ rows2 (ColumnMajor.mul_matrix_matrix2 n a2 b2))
        × (row_major_mul_matrix_matrix n undefined (rows3 a3) (rows3 b3)
            ≡ rows3 (mul_matrix_matrix3 n a3 b3))
        × (column_major_mul_matrix_matrix n undefined (rows3 a3) (rows3 b3)
            ≡ rows3 (ColumnMajor.mul_matrix_matrix3 n a3 b3))
        × (row_major_mul_matrix_matrix n undefined (rows4 a) (rows4 b)
            ≡ rows4 (mul_matrix_matrix4 n a b))
        × (column_major_mul_matrix_matrix n undefined (rows4 a) (rows4 b)
            ≡ rows4 (ColumnMajor.mul_matrix_matrix4 n a b))
        × (composition n a b ≡ mul_matrix_matrix4 n b a)
        × (composition n a b ≡ ColumnMajor.mul_matrix_matrix4 n a b)
        × (compose n a b ≡ composition n a b)
        × (composition n (composition n a b) c ≡ composition n a (composition n b c))
        × (transform_vector4 n (composition n a b) v
            ≡ transform_vector4 n a (transform_vector4 n b v))
  unfolding composition compose ColumnMajor.mul_matrix_matrix4
  mul_matrix_matrix-composition undefined a2 b2 a3 b3 a b c v =
      let two = mul_matrix_matrix2-loop undefined a2 b2 in
      let three = mul_matrix_matrix3-loop undefined a3 b3 in
      let four = mul_matrix_matrix4-loop undefined a b in
      (
        two.0,
        two.1,
        three.0,
        three.1,
        four.0,
        four.1,
        composition-mul a b,
        refl,
        refl,
        composition_assoc a b c,
        transform_vector4-composition a b v,
      )

  det2-mul :
      (a b : Matrix2 n.Number) → det2 n (mul_matrix_matrix2 n a b) ≡ n.mul (det2 n a) (det2 n b)
  unfolding det2 mul_matrix_matrix2
  det2-mul a b =
      let x = variables22 0 in
      let y = variables22 4 in
      solve n r (values n (entries2 a ++ entries2 b))
        (det2 expressions (mul_matrix_matrix2 expressions x y))
        (times (det2 expressions x) (det2 expressions y)) refl

  det3-mul :
      (a b : Matrix3 n.Number) → det3 n (mul_matrix_matrix3 n a b) ≡ n.mul (det3 n a) (det3 n b)
  unfolding det3 mul_matrix_matrix3
  det3-mul a b =
      let x = variables33 0 in
      let y = variables33 9 in
      solve n r (values n (entries3 a ++ entries3 b))
        (det3 expressions (mul_matrix_matrix3 expressions x y))
        (times (det3 expressions x) (det3 expressions y)) refl
