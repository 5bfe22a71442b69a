-- ===== src/Math/Motions.antt =====
-- The identity, translations and scalings of o3djs/math.js, as new matrices and as changes of one.
use toolbox.Base.{ℕ, if◌then◌else◌, ◌==◌}
use toolbox.Ring.{Numbers}
use toolbox.Math.{Array3, Array4, Matrix4, array4}

module _ (n : Numbers) where
  open n use {Number, zero, one, add as ◌+◌, sub as ◌-◌, mul as ◌*◌, neg}

  infixl 65 ◌+◌ ◌-◌
  infixl 70 ◌*◌
  unfoldable pub identity : Matrix4 Number
  identity =
      array4 (array4 one zero zero zero) (array4 zero one zero zero) (array4 zero zero one zero)
        (array4 zero zero zero one)

  abbrev pub identity_entry : ℕ → ℕ → Number
  identity_entry i j = if i == j then one else zero

  abbrev pub identity_row : ℕ → Array4 Number
  identity_row i =
      array4 (identity_entry i 0) (identity_entry i 1) (identity_entry i 2) (identity_entry i 3)

  -- Every entry of `m` is overwritten.
  unfoldable pub set_identity : Matrix4 Number → Matrix4 Number
  set_identity m = array4 (identity_row 0) (identity_row 1) (identity_row 2) (identity_row 3)

  unfoldable pub translation : Array3 Number → Matrix4 Number
  translation v =
      array4 (array4 one zero zero zero) (array4 zero one zero zero) (array4 zero zero one zero)
        (array4 v.at0 v.at1 v.at2 one)

  unfoldable pub scaling : Array3 Number → Matrix4 Number
  scaling v =
      array4 (array4 v.at0 zero zero zero) (array4 zero v.at1 zero zero)
        (array4 zero zero v.at2 zero) (array4 zero zero zero one)

  unfoldable pub translate : Matrix4 Number → Array3 Number → Matrix4 Number
  translate m v =
      let v0 = v.at0 in
      let v1 = v.at1 in
      let v2 = v.at2 in
      let m00 = m.at0.at0 in
      let m01 = m.at0.at1 in
      let m02 = m.at0.at2 in
      let m03 = m.at0.at3 in
      let m10 = m.at1.at0 in
      let m11 = m.at1.at1 in
      let m12 = m.at1.at2 in
      let m13 = m.at1.at3 in
      let m20 = m.at2.at0 in
      let m21 = m.at2.at1 in
      let m22 = m.at2.at2 in
      let m23 = m.at2.at3 in
      let m30 = m.at3.at0 in
      let m31 = m.at3.at1 in
      let m32 = m.at3.at2 in
      let m33 = m.at3.at3 in
      array4 m.at0 m.at1 m.at2 (
        array4 (m00 * v0 + m10 * v1 + m20 * v2 + m30) (m01 * v0 + m11 * v1 + m21 * v2 + m31)
          (m02 * v0 + m12 * v1 + m22 * v2 + m32) (m03 * v0 + m13 * v1 + m23 * v2 + m33))

  unfoldable pub scale : Matrix4 Number → Array3 Number → Matrix4 Number
  scale m v =
      let v0 = v.at0 in
      let v1 = v.at1 in
      let v2 = v.at2 in
      let m00 = m.at0.at0 in
      let m01 = m.at0.at1 in
      let m02 = m.at0.at2 in
      let m03 = m.at0.at3 in
      let m10 = m.at1.at0 in
      let m11 = m.at1.at1 in
      let m12 = m.at1.at2 in
      let m13 = m.at1.at3 in
      let m20 = m.at2.at0 in
      let m21 = m.at2.at1 in
      let m22 = m.at2.at2 in
      let m23 = m.at2.at3 in
      array4 (array4 (v0 * m00) (v0 * m01) (v0 * m02) (v0 * m03))
        (array4 (v1 * m10) (v1 * m11) (v1 * m12) (v1 * m13))
        (array4 (v2 * m20) (v2 * m21) (v2 * m22) (v2 * m23)) m.at3
