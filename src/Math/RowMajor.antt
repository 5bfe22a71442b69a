-- ===== src/Math/RowMajor.antt =====
-- The products of matrices of fixed size of o3djs/math.js, in row major order.
use toolbox.Ring.{Numbers}
use toolbox.Math.{Matrix2, Matrix3, Matrix4, array2, array3, array4}

module _ (n : Numbers) where
  open n use {Number, add as ◌+◌, mul as ◌*◌}

  infixl 65 ◌+◌
  infixl 70 ◌*◌
  unfoldable pub mul_matrix_matrix2 : Matrix2 Number → Matrix2 Number → Matrix2 Number
  mul_matrix_matrix2 a b =
      let a00 = a.at0.at0 in
      let a01 = a.at0.at1 in
      let a10 = a.at1.at0 in
      let a11 = a.at1.at1 in
      let b00 = b.at0.at0 in
      let b01 = b.at0.at1 in
      let b10 = b.at1.at0 in
      let b11 = b.at1.at1 in
      array2 (array2 (a00 * b00 + a01 * b10) (a00 * b01 + a01 * b11))
        (array2 (a10 * b00 + a11 * b10) (a10 * b01 + a11 * b11))

  unfoldable pub mul_matrix_matrix3 : Matrix3 Number → Matrix3 Number → Matrix3 Number
  mul_matrix_matrix3 a b =
      let a00 = a.at0.at0 in
      let a01 = a.at0.at1 in
      let a02 = a.at0.at2 in
      let a10 = a.at1.at0 in
      let a11 = a.at1.at1 in
      let a12 = a.at1.at2 in
      let a20 = a.at2.at0 in
      let a21 = a.at2.at1 in
      let a22 = a.at2.at2 in
      let b00 = b.at0.at0 in
      let b01 = b.at0.at1 in
      let b02 = b.at0.at2 in
      let b10 = b.at1.at0 in
      let b11 = b.at1.at1 in
      let b12 = b.at1.at2 in
      let b20 = b.at2.at0 in
      let b21 = b.at2.at1 in
      let b22 = b.at2.at2 in
      array3
        (array3 (a00 * b00 + a01 * b10 + a02 * b20) (a00 * b01 + a01 * b11 + a02 * b21)
          (a00 * b02 + a01 * b12 + a02 * b22))
        (array3 (a10 * b00 + a11 * b10 + a12 * b20) (a10 * b01 + a11 * b11 + a12 * b21)
          (a10 * b02 + a11 * b12 + a12 * b22))
        (array3 (a20 * b00 + a21 * b10 + a22 * b20) (a20 * b01 + a21 * b11 + a22 * b21)
          (a20 * b02 + a21 * b12 + a22 * b22))

  unfoldable pub mul_matrix_matrix4 : Matrix4 Number → Matrix4 Number → Matrix4 Number
  mul_matrix_matrix4 a b =
      let a00 = a.at0.at0 in
      let a01 = a.at0.at1 in
      let a02 = a.at0.at2 in
      let a03 = a.at0.at3 in
      let a10 = a.at1.at0 in
      let a11 = a.at1.at1 in
      let a12 = a.at1.at2 in
      let a13 = a.at1.at3 in
      let a20 = a.at2.at0 in
      let a21 = a.at2.at1 in
      let a22 = a.at2.at2 in
      let a23 = a.at2.at3 in
      let a30 = a.at3.at0 in
      let a31 = a.at3.at1 in
      let a32 = a.at3.at2 in
      let a33 = a.at3.at3 in
      let b00 = b.at0.at0 in
      let b01 = b.at0.at1 in
      let b02 = b.at0.at2 in
      let b03 = b.at0.at3 in
      let b10 = b.at1.at0 in
      let b11 = b.at1.at1 in
      let b12 = b.at1.at2 in
      let b13 = b.at1.at3 in
      let b20 = b.at2.at0 in
      let b21 = b.at2.at1 in
      let b22 = b.at2.at2 in
      let b23 = b.at2.at3 in
      let b30 = b.at3.at0 in
      let b31 = b.at3.at1 in
      let b32 = b.at3.at2 in
      let b33 = b.at3.at3 in
      array4
        (array4 (a00 * b00 + a01 * b10 + a02 * b20 + a03 * b30)
          (a00 * b01 + a01 * b11 + a02 * b21 + a03 * b31)
          (a00 * b02 + a01 * b12 + a02 * b22 + a03 * b32)
          (a00 * b03 + a01 * b13 + a02 * b23 + a03 * b33))
        (array4 (a10 * b00 + a11 * b10 + a12 * b20 + a13 * b30)
          (a10 * b01 + a11 * b11 + a12 * b21 + a13 * b31)
          (a10 * b02 + a11 * b12 + a12 * b22 + a13 * b32)
          (a10 * b03 + a11 * b13 + a12 * b23 + a13 * b33))
        (array4 (a20 * b00 + a21 * b10 + a22 * b20 + a23 * b30)
          (a20 * b01 + a21 * b11 + a22 * b21 + a23 * b31)
          (a20 * b02 + a21 * b12 + a22 * b22 + a23 * b32)
          (a20 * b03 + a21 * b13 + a22 * b23 + a23 * b33))
        (array4 (a30 * b00 + a31 * b10 + a32 * b20 + a33 * b30)
          (a30 * b01 + a31 * b11 + a32 * b21 + a33 * b31)
          (a30 * b02 + a31 * b12 + a32 * b22 + a33 * b32)
          (a30 * b03 + a31 * b13 + a32 * b23 + a33 * b33))
