-- ===== src/Transform/Local.antt =====
-- The methods of o3d.Transform in o3d-webgl/transform.js that change its local matrix: each gives the
-- new local matrix.
use toolbox.Base.{ℕ, if◌then◌else◌, ◌==◌}
use toolbox.Ring.{Numbers, Reals}
use toolbox.Math.{Array3, Array4, Matrix4, array4}
use toolbox.Transform.Matrices.{compose, axis_rotate_matrix}

module _ (n : Numbers) where
  open n use {Number, zero, one, add as ◌+◌, sub as ◌-◌, mul as ◌*◌, neg}

  infixl 65 ◌+◌ ◌-◌
  infixl 70 ◌*◌
  abbrev pub entry_of_identity : ℕ → ℕ → Number
  entry_of_identity i j = if i == j then one else zero

  abbrev pub row_of_identity : ℕ → Array4 Number
  row_of_identity i =
      array4 (entry_of_identity i 0) (entry_of_identity i 1) (entry_of_identity i 2)
        (entry_of_identity i 3)

  unfoldable pub identity : Matrix4 Number → Matrix4 Number
  identity m =
      array4 (row_of_identity 0) (row_of_identity 1) (row_of_identity 2) (row_of_identity 3)

  unfoldable pub translate : Matrix4 Number → Array3 Number → Matrix4 Number
  translate m v =
      let v0 = v.at0 in
      let v1 = v.at1 in
      let v2 = v.at2 in
      let m00 = m.at0.at0 in
      let m01 = m.at0.at1 in
      let m02 = m.at0.at2 in
      let m03 = m.at0.at3 in
      let m10 = m.at1.at0 in
      let m11 = m.at1.at1 in
      let m12 = m.at1.at2 in
      let m13 = m.at1.at3 in
      let m20 = m.at2.at0 in
      let m21 = m.at2.at1 in
      let m22 = m.at2.at2 in
      let m23 = m.at2.at3 in
      let m30 = m.at3.at0 in
      let m31 = m.at3.at1 in
      let m32 = m.at3.at2 in
      let m33 = m.at3.at3 in
      array4 m.at0 m.at1 m.at2 (
        array4 (m00 * v0 + m10 * v1 + m20 * v2 + m30) (m01 * v0 + m11 * v1 + m21 * v2 + m31)
          (m02 * v0 + m12 * v1 + m22 * v2 + m32) (m03 * v0 + m13 * v1 + m23 * v2 + m33))

  unfoldable pub scale : Matrix4 Number → Array3 Number → Matrix4 Number
  scale m v =
      let v0 = v.at0 in
      let v1 = v.at1 in
      let v2 = v.at2 in
      let m00 = m.at0.at0 in
      let m01 = m.at0.at1 in
      let m02 = m.at0.at2 in
      let m03 = m.at0.at3 in
      let m10 = m.at1.at0 in
      let m11 = m.at1.at1 in
      let m12 = m.at1.at2 in
      let m13 = m.at1.at3 in
      let m20 = m.at2.at0 in
      let m21 = m.at2.at1 in
      let m22 = m.at2.at2 in
      let m23 = m.at2.at3 in
      array4 (array4 (v0 * m00) (v0 * m01) (v0 * m02) (v0 * m03))
        (array4 (v1 * m10) (v1 * m11) (v1 * m12) (v1 * m13))
        (array4 (v2 * m20) (v2 * m21) (v2 * m22) (v2 * m23)) m.at3

module _ (f : Reals) where
  open f use {numbers, div as ◌/◌}
  open numbers use {Number, zero, one, add as ◌+◌, sub as ◌-◌, mul as ◌*◌, neg}

  infixl 65 ◌+◌ ◌-◌
  infixl 70 ◌*◌ ◌/◌
  unfoldable pub rotate_x : Matrix4 Number → Number → Matrix4 Number
  rotate_x m angle =
      let m10 = m.at1.at0 in
      let m11 = m.at1.at1 in
      let m12 = m.at1.at2 in
      let m13 = m.at1.at3 in
      let m20 = m.at2.at0 in
      let m21 = m.at2.at1 in
      let m22 = m.at2.at2 in
      let m23 = m.at2.at3 in
      let c = f.cos angle in
      let s = f.sin angle in
      array4 m.at0
        (array4 (c * m10 + s * m20) (c * m11 + s * m21) (c * m12 + s * m22) (c * m13 + s * m23))
        (array4 (c * m20 - s * m10) (c * m21 - s * m11) (c * m22 - s * m12) (c * m23 - s * m13))
        m.at3

  unfoldable pub rotate_y : Matrix4 Number → Number → Matrix4 Number
  rotate_y m angle =
      let m00 = m.at0.at0 in
      let m01 = m.at0.at1 in
      let m02 = m.at0.at2 in
      let m03 = m.at0.at3 in
      let m20 = m.at2.at0 in
      let m21 = m.at2.at1 in
      let m22 = m.at2.at2 in
      let m23 = m.at2.at3 in
      let c = f.cos angle in
      let s = f.sin angle in
      array4
        (array4 (c * m00 - s * m20) (c * m01 - s * m21) (c * m02 - s * m22) (c * m03 - s * m23))
        m.at1
        (array4 (c * m20 + s * m00) (c * m21 + s * m01) (c * m22 + s * m02) (c * m23 + s * m03))
        m.at3

  unfoldable pub rotate_z : Matrix4 Number → Number → Matrix4 Number
  rotate_z m angle =
      let m00 = m.at0.at0 in
      let m01 = m.at0.at1 in
      let m02 = m.at0.at2 in
      let m03 = m.at0.at3 in
      let m10 = m.at1.at0 in
      let m11 = m.at1.at1 in
      let m12 = m.at1.at2 in
      let m13 = m.at1.at3 in
      let c = f.cos angle in
      let s = f.sin angle in
      array4
        (array4 (c * m00 + s * m10) (c * m01 + s * m11) (c * m02 + s * m12) (c * m03 + s * m13))
        (array4 (c * m10 - s * m00) (c * m11 - s * m01) (c * m12 - s * m02) (c * m13 - s * m03))
        m.at2 m.at3

  unfoldable pub rotate_zyx : Matrix4 Number → Array3 Number → Matrix4 Number
  rotate_zyx m v =
      let sin_x = f.sin v.at0 in
      let cos_x = f.cos v.at0 in
      let sin_y = f.sin v.at1 in
      let cos_y = f.cos v.at1 in
      let sin_z = f.sin v.at2 in
      let cos_z = f.cos v.at2 in
      let cos_zsin_y = cos_z * sin_y in
      let sin_zsin_y = sin_z * sin_y in
      let r00 = cos_z * cos_y in
      let r01 = sin_z * cos_y in
      let r02 = neg sin_y in
      let r10 = cos_zsin_y * sin_x - sin_z * cos_x in
      let r11 = sin_zsin_y * sin_x + cos_z * cos_x in
      let r12 = cos_y * sin_x in
      let r20 = cos_zsin_y * cos_x + sin_z * sin_x in
      let r21 = sin_zsin_y * cos_x - cos_z * sin_x in
      let r22 = cos_y * cos_x in
      let m00 = m.at0.at0 in
      let m01 = m.at0.at1 in
      let m02 = m.at0.at2 in
      let m03 = m.at0.at3 in
      let m10 = m.at1.at0 in
      let m11 = m.at1.at1 in
      let m12 = m.at1.at2 in
      let m13 = m.at1.at3 in
      let m20 = m.at2.at0 in
      let m21 = m.at2.at1 in
      let m22 = m.at2.at2 in
      let m23 = m.at2.at3 in
      array4
        (array4 (r00 * m00 + r01 * m10 + r02 * m20) (r00 * m01 + r01 * m11 + r02 * m21)
          (r00 * m02 + r01 * m12 + r02 * m22) (r00 * m03 + r01 * m13 + r02 * m23))
        (array4 (r10 * m00 + r11 * m10 + r12 * m20) (r10 * m01 + r11 * m11 + r12 * m21)
          (r10 * m02 + r11 * m12 + r12 * m22) (r10 * m03 + r11 * m13 + r12 * m23))
        (array4 (r20 * m00 + r21 * m10 + r22 * m20) (r20 * m01 + r21 * m11 + r22 * m21)
          (r20 * m02 + r21 * m12 + r22 * m22) (r20 * m03 + r21 * m13 + r22 * m23))
        m.at3

  unfoldable pub axis_rotate : Matrix4 Number → Array3 Number → Number → Matrix4 Number
  axis_rotate m axis angle = axis_rotate_matrix f m axis angle

  abbrev pub two : Number
  two = one + one

  unfoldable pub quaternion_rotate : Matrix4 Number → Array4 Number → Matrix4 Number
  quaternion_rotate m q =
      let q_x = q.at0 in
      let q_y = q.at1 in
      let q_z = q.at2 in
      let q_w = q.at3 in
      let q_w_q_w = q_w * q_w in
      let q_w_q_x = q_w * q_x in
      let q_w_q_y = q_w * q_y in
      let q_w_q_z = q_w * q_z in
      let q_x_q_x = q_x * q_x in
      let q_x_q_y = q_x * q_y in
      let q_x_q_z = q_x * q_z in
      let q_y_q_y = q_y * q_y in
      let q_y_q_z = q_y * q_z in
      let q_z_q_z = q_z * q_z in
      let d = q_w_q_w + q_x_q_x + q_y_q_y + q_z_q_z in
      compose numbers m (
        array4
          (array4 ((q_w_q_w + q_x_q_x - q_y_q_y - q_z_q_z) / d) (two * (q_w_q_z + q_x_q_y) / d)
            (two * (q_x_q_z - q_w_q_y) / d) zero)
          (array4 (two * (q_x_q_y - q_w_q_z) / d) ((q_w_q_w - q_x_q_x + q_y_q_y - q_z_q_z) / d)
            (two * (q_w_q_x + q_y_q_z) / d) zero)
          (array4 (two * (q_w_q_y + q_x_q_z) / d) (two * (q_y_q_z - q_w_q_x) / d)
            ((q_w_q_w - q_x_q_x - q_y_q_y + q_z_q_z) / d) zero)
          (array4 zero zero zero one))
