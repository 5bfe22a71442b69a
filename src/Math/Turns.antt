-- ===== src/Math/Turns.antt =====
-- rotationZYX, rotateZYX, axisRotation and axisRotate of o3djs/math.js.
use toolbox.Ring.{Reals}
use toolbox.Math.{Array3, Matrix4, array4}

module _ (f : Reals) where
  open f use {numbers, div as ◌/◌}
  open numbers use {Number, zero, one, add as ◌+◌, sub as ◌-◌, mul as ◌*◌, neg}

  infixl 65 ◌+◌ ◌-◌
  infixl 70 ◌*◌ ◌/◌
  unfoldable pub rotation_zyx : Array3 Number → Matrix4 Number
  rotation_zyx v =
      let sinx = f.sin v.at0 in
      let cosx = f.cos v.at0 in
      let siny = f.sin v.at1 in
      let cosy = f.cos v.at1 in
      let sinz = f.sin v.at2 in
      let cosz = f.cos v.at2 in
      let coszsiny = cosz * siny in
      let sinzsiny = sinz * siny in
      array4 (array4 (cosz * cosy) (sinz * cosy) (neg siny) zero)
        (array4 (coszsiny * sinx - sinz * cosx) (sinzsiny * sinx + cosz * cosx) (cosy * sinx) zero)
        (array4 (coszsiny * cosx + sinz * sinx) (sinzsiny * cosx - cosz * sinx) (cosy * cosx) zero)
        (array4 zero zero zero one)

  unfoldable pub rotate_zyx : Matrix4 Number → Array3 Number → Matrix4 Number
  rotate_zyx m v =
      let sin_x = f.sin v.at0 in
      let cos_x = f.cos v.at0 in
      let sin_y = f.sin v.at1 in
      let cos_y = f.cos v.at1 in
      let sin_z = f.sin v.at2 in
      let cos_z = f.cos v.at2 in
      let cos_zsin_y = cos_z * sin_y in
      let sin_zsin_y = sin_z * sin_y in
      let r00 = cos_z * cos_y in
      let r01 = sin_z * cos_y in
      let r02 = neg sin_y in
      let r10 = cos_zsin_y * sin_x - sin_z * cos_x in
      let r11 = sin_zsin_y * sin_x + cos_z * cos_x in
      let r12 = cos_y * sin_x in
      let r20 = cos_zsin_y * cos_x + sin_z * sin_x in
      let r21 = sin_zsin_y * cos_x - cos_z * sin_x in
      let r22 = cos_y * cos_x in
      let m00 = m.at0.at0 in
      let m01 = m.at0.at1 in
      let m02 = m.at0.at2 in
      let m03 = m.at0.at3 in
      let m10 = m.at1.at0 in
      let m11 = m.at1.at1 in
      let m12 = m.at1.at2 in
      let m13 = m.at1.at3 in
      let m20 = m.at2.at0 in
      let m21 = m.at2.at1 in
      let m22 = m.at2.at2 in
      let m23 = m.at2.at3 in
      array4
        (array4 (r00 * m00 + r01 * m10 + r02 * m20) (r00 * m01 + r01 * m11 + r02 * m21)
          (r00 * m02 + r01 * m12 + r02 * m22) (r00 * m03 + r01 * m13 + r02 * m23))
        (array4 (r10 * m00 + r11 * m10 + r12 * m20) (r10 * m01 + r11 * m11 + r12 * m21)
          (r10 * m02 + r11 * m12 + r12 * m22) (r10 * m03 + r11 * m13 + r12 * m23))
        (array4 (r20 * m00 + r21 * m10 + r22 * m20) (r20 * m01 + r21 * m11 + r22 * m21)
          (r20 * m02 + r21 * m12 + r22 * m22) (r20 * m03 + r21 * m13 + r22 * m23))
        m.at3

  unfoldable pub axis_rotation : Array3 Number → Number → Matrix4 Number
  axis_rotation axis angle =
      let n = f.sqrt (axis.at0 * axis.at0 + axis.at1 * axis.at1 + axis.at2 * axis.at2) in
      let x = axis.at0 / n in
      let y = axis.at1 / n in
      let z = axis.at2 / n in
      let xx = x * x in
      let yy = y * y in
      let zz = z * z in
      let c = f.cos angle in
      let s = f.sin angle in
      let one_minus_cosine = one - c in
      array4
        (array4 (xx + (one - xx) * c) (x * y * one_minus_cosine + z * s)
          (x * z * one_minus_cosine - y * s) zero)
        (array4 (x * y * one_minus_cosine - z * s) (yy + (one - yy) * c)
          (y * z * one_minus_cosine + x * s) zero)
        (array4 (x * z * one_minus_cosine + y * s) (y * z * one_minus_cosine - x * s)
          (zz + (one - zz) * c) zero)
        (array4 zero zero zero one)

  unfoldable pub axis_rotate : Matrix4 Number → Array3 Number → Number → Matrix4 Number
  axis_rotate m axis angle =
      let n = f.sqrt (axis.at0 * axis.at0 + axis.at1 * axis.at1 + axis.at2 * axis.at2) in
      let x = axis.at0 / n in
      let y = axis.at1 / n in
      let z = axis.at2 / n in
      let xx = x * x in
      let yy = y * y in
      let zz = z * z in
      let c = f.cos angle in
      let s = f.sin angle in
      let one_minus_cosine = one - c in
      let r00 = xx + (one - xx) * c in
      let r01 = x * y * one_minus_cosine + z * s in
      let r02 = x * z * one_minus_cosine - y * s in
      let r10 = x * y * one_minus_cosine - z * s in
      let r11 = yy + (one - yy) * c in
      let r12 = y * z * one_minus_cosine + x * s in
      let r20 = x * z * one_minus_cosine + y * s in
      let r21 = y * z * one_minus_cosine - x * s in
      let r22 = zz + (one - zz) * c in
      let m00 = m.at0.at0 in
      let m01 = m.at0.at1 in
      let m02 = m.at0.at2 in
      let m03 = m.at0.at3 in
      let m10 = m.at1.at0 in
      let m11 = m.at1.at1 in
      let m12 = m.at1.at2 in
      let m13 = m.at1.at3 in
      let m20 = m.at2.at0 in
      let m21 = m.at2.at1 in
      let m22 = m.at2.at2 in
      let m23 = m.at2.at3 in
      array4
        (array4 (r00 * m00 + r01 * m10 + r02 * m20) (r00 * m01 + r01 * m11 + r02 * m21)
          (r00 * m02 + r01 * m12 + r02 * m22) (r00 * m03 + r01 * m13 + r02 * m23))
        (array4 (r10 * m00 + r11 * m10 + r12 * m20) (r10 * m01 + r11 * m11 + r12 * m21)
          (r10 * m02 + r11 * m12 + r12 * m22) (r10 * m03 + r11 * m13 + r12 * m23))
        (array4 (r20 * m00 + r21 * m10 + r22 * m20) (r20 * m01 + r21 * m11 + r22 * m21)
          (r20 * m02 + r21 * m12 + r22 * m22) (r20 * m03 + r21 * m13 + r22 * m23))
        m.at3
