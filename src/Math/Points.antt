-- ===== src/Math/Points.antt =====
-- The action of matrices on points, vectors, directions and normals in o3djs/math.js, and the parts
-- of a matrix.
use toolbox.Ring.{Numbers, Reals}
use toolbox.Math.{Array3, Array4, Matrix3, Matrix4, array3, array4}
use toolbox.Math.Inverses.{inverse4}

module _ (n : Numbers) where
  open n use {Number, zero, one, add as ◌+◌, sub as ◌-◌, mul as ◌*◌, neg}

  infixl 65 ◌+◌ ◌-◌
  infixl 70 ◌*◌
  unfoldable pub transform_vector4 : Matrix4 Number → Array4 Number → Array4 Number
  transform_vector4 m v =
      let v0 = v.at0 in
      let v1 = v.at1 in
      let v2 = v.at2 in
      let v3 = v.at3 in
      let m00 = m.at0.at0 in
      let m01 = m.at0.at1 in
      let m02 = m.at0.at2 in
      let m03 = m.at0.at3 in
      let m10 = m.at1.at0 in
      let m11 = m.at1.at1 in
      let m12 = m.at1.at2 in
      let m13 = m.at1.at3 in
      let m20 = m.at2.at0 in
      let m21 = m.at2.at1 in
      let m22 = m.at2.at2 in
      let m23 = m.at2.at3 in
      let m30 = m.at3.at0 in
      let m31 = m.at3.at1 in
      let m32 = m.at3.at2 in
      let m33 = m.at3.at3 in
      array4 (v0 * m00 + v1 * m10 + v2 * m20 + v3 * m30) (v0 * m01 + v1 * m11 + v2 * m21 + v3 * m31)
        (v0 * m02 + v1 * m12 + v2 * m22 + v3 * m32) (v0 * m03 + v1 * m13 + v2 * m23 + v3 * m33)

  unfoldable pub transform_direction : Matrix4 Number → Array3 Number → Array3 Number
  transform_direction m v =
      let v0 = v.at0 in
      let v1 = v.at1 in
      let v2 = v.at2 in
      let m00 = m.at0.at0 in
      let m01 = m.at0.at1 in
      let m02 = m.at0.at2 in
      let m10 = m.at1.at0 in
      let m11 = m.at1.at1 in
      let m12 = m.at1.at2 in
      let m20 = m.at2.at0 in
      let m21 = m.at2.at1 in
      let m22 = m.at2.at2 in
      array3 (v0 * m00 + v1 * m10 + v2 * m20) (v0 * m01 + v1 * m11 + v2 * m21)
        (v0 * m02 + v1 * m12 + v2 * m22)

  unfoldable pub set_upper3x3 : Matrix4 Number → Matrix3 Number → Matrix4 Number
  set_upper3x3 a b =
      let b0 = b.at0 in
      let b1 = b.at1 in
      let b2 = b.at2 in
      array4 (array4 b0.at0 b0.at1 b0.at2 a.at0.at3) (array4 b1.at0 b1.at1 b1.at2 a.at1.at3)
        (array4 b2.at0 b2.at1 b2.at2 a.at2.at3) a.at3

  unfoldable pub get_upper3x3 : Matrix4 Number → Matrix3 Number
  get_upper3x3 m =
      array3 (array3 m.at0.at0 m.at0.at1 m.at0.at2) (array3 m.at1.at0 m.at1.at1 m.at1.at2)
        (array3 m.at2.at0 m.at2.at1 m.at2.at2)

  unfoldable pub set_translation : Matrix4 Number → Array3 Number → Matrix4 Number
  set_translation a v = array4 a.at0 a.at1 a.at2 (array4 v.at0 v.at1 v.at2 one)

  unfoldable pub get_translation : Matrix4 Number → Array3 Number
  get_translation m = array3 m.at3.at0 m.at3.at1 m.at3.at2

module _ (f : Reals) where
  open f use {numbers, div as ◌/◌}
  open numbers use {Number, zero, one, add as ◌+◌, sub as ◌-◌, mul as ◌*◌, neg}

  infixl 65 ◌+◌ ◌-◌
  infixl 70 ◌*◌ ◌/◌
  unfoldable pub transform_point : Matrix4 Number → Array3 Number → Array3 Number
  transform_point m v =
      let v0 = v.at0 in
      let v1 = v.at1 in
      let v2 = v.at2 in
      let m00 = m.at0.at0 in
      let m01 = m.at0.at1 in
      let m02 = m.at0.at2 in
      let m03 = m.at0.at3 in
      let m10 = m.at1.at0 in
      let m11 = m.at1.at1 in
      let m12 = m.at1.at2 in
      let m13 = m.at1.at3 in
      let m20 = m.at2.at0 in
      let m21 = m.at2.at1 in
      let m22 = m.at2.at2 in
      let m23 = m.at2.at3 in
      let m30 = m.at3.at0 in
      let m31 = m.at3.at1 in
      let m32 = m.at3.at2 in
      let m33 = m.at3.at3 in
      let d = v0 * m03 + v1 * m13 + v2 * m23 + m33 in
      array3 ((v0 * m00 + v1 * m10 + v2 * m20 + m30) / d)
        ((v0 * m01 + v1 * m11 + v2 * m21 + m31) / d) ((v0 * m02 + v1 * m12 + v2 * m22 + m32) / d)

  unfoldable pub transform_normal : Matrix4 Number → Array3 Number → Array3 Number
  transform_normal m v =
      let m_inverse = inverse4 f m in
      let v0 = v.at0 in
      let v1 = v.at1 in
      let v2 = v.at2 in
      let mi0 = m_inverse.at0 in
      let mi1 = m_inverse.at1 in
      let mi2 = m_inverse.at2 in
      array3 (v0 * mi0.at0 + v1 * mi0.at1 + v2 * mi0.at2)
        (v0 * mi1.at0 + v1 * mi1.at1 + v2 * mi1.at2) (v0 * mi2.at0 + v1 * mi2.at1 + v2 * mi2.at2)
