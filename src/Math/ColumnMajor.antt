-- ===== src/Math/ColumnMajor.antt =====
-- The products of matrices of fixed size of o3djs/math.js, in column major order.
use toolbox.Ring.{Numbers}
use toolbox.Math.{Matrix2, Matrix3, Matrix4, array2, array3, array4}

module _ (n : Numbers) where
  open n use {Number, add as ◌+◌, mul as ◌*◌}

  infixl 65 ◌+◌
  infixl 70 ◌*◌
  unfoldable pub mul_matrix_matrix2 : Matrix2 Number → Matrix2 Number → Matrix2 Number
  mul_matrix_matrix2 a b =
      let a00 = a.at0.at0 in
      let a01 = a.at0.at1 in
      let a10 = a.at1.at0 in
      let a11 = a.at1.at1 in
      let b00 = b.at0.at0 in
      let b01 = b.at0.at1 in
      let b10 = b.at1.at0 in
      let b11 = b.at1.at1 in
      array2 (array2 (a00 * b00 + a10 * b01) (a01 * b00 + a11 * b01))
        (array2 (a00 * b10 + a10 * b11) (a01 * b10 + a11 * b11))

  unfoldable pub mul_matrix_matrix3 : Matrix3 Number → Matrix3 Number → Matrix3 Number
  mul_matrix_matrix3 a b =
      let a00 = a.at0.at0 in
      let a01 = a.at0.at1 in
      let a02 = a.at0.at2 in
      let a10 = a.at1.at0 in
      let a11 = a.at1.at1 in
      let a12 = a.at1.at2 in
      let a20 = a.at2.at0 in
      let a21 = a.at2.at1 in
      let a22 = a.at2.at2 in
      let b00 = b.at0.at0 in
      let b01 = b.at0.at1 in
      let b02 = b.at0.at2 in
      let b10 = b.at1.at0 in
      let b11 = b.at1.at1 in
      let b12 = b.at1.at2 in
      let b20 = b.at2.at0 in
      let b21 = b.at2.at1 in
      let b22 = b.at2.at2 in
      array3
        (array3 (a00 * b00 + a10 * b01 + a20 * b02) (a01 * b00 + a11 * b01 + a21 * b02)
          (a02 * b00 + a12 * b01 + a22 * b02))
        (array3 (a00 * b10 + a10 * b11 + a20 * b12) (a01 * b10 + a11 * b11 + a21 * b12)
          (a02 * b10 + a12 * b11 + a22 * b12))
        (array3 (a00 * b20 + a10 * b21 + a20 * b22) (a01 * b20 + a11 * b21 + a21 * b22)
          (a02 * b20 + a12 * b21 + a22 * b22))

  unfoldable pub mul_matrix_matrix4 : Matrix4 Number → Matrix4 Number → Matrix4 Number
  mul_matrix_matrix4 a b =
      let a00 = a.at0.at0 in
      let a01 = a.at0.at1 in
      let a02 = a.at0.at2 in
      let a03 = a.at0.at3 in
      let a10 = a.at1.at0 in
      let a11 = a.at1.at1 in
      let a12 = a.at1.at2 in
      let a13 = a.at1.at3 in
      let a20 = a.at2.at0 in
      let a21 = a.at2.at1 in
      let a22 = a.at2.at2 in
      let a23 = a.at2.at3 in
      let a30 = a.at3.at0 in
      let a31 = a.at3.at1 in
      let a32 = a.at3.at2 in
      let a33 = a.at3.at3 in
      let b00 = b.at0.at0 in
      let b01 = b.at0.at1 in
      let b02 = b.at0.at2 in
      let b03 = b.at0.at3 in
      let b10 = b.at1.at0 in
      let b11 = b.at1.at1 in
      let b12 = b.at1.at2 in
      let b13 = b.at1.at3 in
      let b20 = b.at2.at0 in
      let b21 = b.at2.at1 in
      let b22 = b.at2.at2 in
      let b23 = b.at2.at3 in
      let b30 = b.at3.at0 in
      let b31 = b.at3.at1 in
      let b32 = b.at3.at2 in
      let b33 = b.at3.at3 in
      array4
        (array4 (a00 * b00 + a10 * b01 + a20 * b02 + a30 * b03)
          (a01 * b00 + a11 * b01 + a21 * b02 + a31 * b03)
          (a02 * b00 + a12 * b01 + a22 * b02 + a32 * b03)
          (a03 * b00 + a13 * b01 + a23 * b02 + a33 * b03))
        (array4 (a00 * b10 + a10 * b11 + a20 * b12 + a30 * b13)
          (a01 * b10 + a11 * b11 + a21 * b12 + a31 * b13)
          (a02 * b10 + a12 * b11 + a22 * b12 + a32 * b13)
          (a03 * b10 + a13 * b11 + a23 * b12 + a33 * b13))
        (array4 (a00 * b20 + a10 * b21 + a20 * b22 + a30 * b23)
          (a01 * b20 + a11 * b21 + a21 * b22 + a31 * b23)
          (a02 * b20 + a12 * b21 + a22 * b22 + a32 * b23)
          (a03 * b20 + a13 * b21 + a23 * b22 + a33 * b23))
        (array4 (a00 * b30 + a10 * b31 + a20 * b32 + a30 * b33)
          (a01 * b30 + a11 * b31 + a21 * b32 + a31 * b33)
          (a02 * b30 + a12 * b31 + a22 * b32 + a32 * b33)
          (a03 * b30 + a13 * b31 + a23 * b32 + a33 * b33))
