-- ===== src/Math/Rotations.antt =====
-- The rotations about the coordinate axes in o3djs/math.js, as new matrices and as changes of one.
use toolbox.Ring.{Reals}
use toolbox.Math.{Matrix4, array4}

module _ (f : Reals) where
  open f use {numbers, div as ◌/◌}
  open numbers use {Number, zero, one, add as ◌+◌, sub as ◌-◌, mul as ◌*◌, neg}

  infixl 65 ◌+◌ ◌-◌
  infixl 70 ◌*◌ ◌/◌
  unfoldable pub rotation_x : Number → Matrix4 Number
  rotation_x angle =
      let c = f.cos angle in
      let s = f.sin angle in
      array4 (array4 one zero zero zero) (array4 zero c s zero) (array4 zero (neg s) c zero)
        (array4 zero zero zero one)

  unfoldable pub rotation_y : Number → Matrix4 Number
  rotation_y angle =
      let c = f.cos angle in
      let s = f.sin angle in
      array4 (array4 c zero (neg s) zero) (array4 zero one zero zero) (array4 s zero c zero)
        (array4 zero zero zero one)

  unfoldable pub rotation_z : Number → Matrix4 Number
  rotation_z angle =
      let c = f.cos angle in
      let s = f.sin angle in
      array4 (array4 c s zero zero) (array4 (neg s) c zero zero) (array4 zero zero one zero)
        (array4 zero zero zero one)

  unfoldable pub rotate_x : Matrix4 Number → Number → Matrix4 Number
  rotate_x m angle =
      let m10 = m.at1.at0 in
      let m11 = m.at1.at1 in
      let m12 = m.at1.at2 in
      let m13 = m.at1.at3 in
      let m20 = m.at2.at0 in
      let m21 = m.at2.at1 in
      let m22 = m.at2.at2 in
      let m23 = m.at2.at3 in
      let c = f.cos angle in
      let s = f.sin angle in
      array4 m.at0
        (array4 (c * m10 + s * m20) (c * m11 + s * m21) (c * m12 + s * m22) (c * m13 + s * m23))
        (array4 (c * m20 - s * m10) (c * m21 - s * m11) (c * m22 - s * m12) (c * m23 - s * m13))
        m.at3

  unfoldable pub rotate_y : Matrix4 Number → Number → Matrix4 Number
  rotate_y m angle =
      let m00 = m.at0.at0 in
      let m01 = m.at0.at1 in
      let m02 = m.at0.at2 in
      let m03 = m.at0.at3 in
      let m20 = m.at2.at0 in
      let m21 = m.at2.at1 in
      let m22 = m.at2.at2 in
      let m23 = m.at2.at3 in
      let c = f.cos angle in
      let s = f.sin angle in
      array4
        (array4 (c * m00 - s * m20) (c * m01 - s * m21) (c * m02 - s * m22) (c * m03 - s * m23))
        m.at1
        (array4 (c * m20 + s * m00) (c * m21 + s * m01) (c * m22 + s * m02) (c * m23 + s * m03))
        m.at3

  unfoldable pub rotate_z : Matrix4 Number → Number → Matrix4 Number
  rotate_z m angle =
      let m00 = m.at0.at0 in
      let m01 = m.at0.at1 in
      let m02 = m.at0.at2 in
      let m03 = m.at0.at3 in
      let m10 = m.at1.at0 in
      let m11 = m.at1.at1 in
      let m12 = m.at1.at2 in
      let m13 = m.at1.at3 in
      let c = f.cos angle in
      let s = f.sin angle in
      array4
        (array4 (c * m00 + s * m10) (c * m01 + s * m11) (c * m02 + s * m12) (c * m03 + s * m13))
        (array4 (c * m10 - s * m00) (c * m11 - s * m01) (c * m12 - s * m02) (c * m13 - s * m03))
        m.at2 m.at3
