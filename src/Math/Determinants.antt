-- ===== src/Math/Determinants.antt =====
-- The determinants of o3djs/math.js: det1 to det4.
use toolbox.Ring.{Numbers}
use toolbox.Math.{Matrix2, Matrix3, Matrix4}

module _ (n : Numbers) where
  open n use {Number, add as ◌+◌, sub as ◌-◌, mul as ◌*◌}

  infixl 65 ◌+◌ ◌-◌
  infixl 70 ◌*◌
  unfoldable pub det2 : Matrix2 Number → Number
  det2 m =
      let m00 = m.at0.at0 in
      let m01 = m.at0.at1 in let m10 = m.at1.at0 in let m11 = m.at1.at1 in m00 * m11 - m01 * m10

  unfoldable pub det3 : Matrix3 Number → Number
  det3 m =
      let m00 = m.at0.at0 in
      let m01 = m.at0.at1 in
      let m02 = m.at0.at2 in
      let m10 = m.at1.at0 in
      let m11 = m.at1.at1 in
      let m12 = m.at1.at2 in
      let m20 = m.at2.at0 in
      let m21 = m.at2.at1 in
      let m22 = m.at2.at2 in
      m22 * (m00 * m11 - m01 * m10) - m21 * (m00 * m12 - m02 * m10) + m20 * (m01 * m12 - m02 * m11)

  unfoldable pub det4 : Matrix4 Number → Number
  det4 m =
      let m00 = m.at0.at0 in
      let m01 = m.at0.at1 in
      let m02 = m.at0.at2 in
      let m03 = m.at0.at3 in
      let m10 = m.at1.at0 in
      let m11 = m.at1.at1 in
      let m12 = m.at1.at2 in
      let m13 = m.at1.at3 in
      let m20 = m.at2.at0 in
      let m21 = m.at2.at1 in
      let m22 = m.at2.at2 in
      let m23 = m.at2.at3 in
      let m30 = m.at3.at0 in
      let m31 = m.at3.at1 in
      let m32 = m.at3.at2 in
      let m33 = m.at3.at3 in
      let t01 = m00 * m11 - m01 * m10 in
      let t02 = m00 * m12 - m02 * m10 in
      let t03 = m00 * m13 - m03 * m10 in
      let t12 = m01 * m12 - m02 * m11 in
      let t13 = m01 * m13 - m03 * m11 in
      let t23 = m02 * m13 - m03 * m12 in
      m33 * (m22 * t01 - m21 * t02 + m20 * t12)
      - m32 * (m23 * t01 - m21 * t03 + m20 * t13)
      + m31 * (m23 * t02 - m22 * t03 + m20 * t23)
      - m30 * (m23 * t12 - m22 * t13 + m21 * t23)
