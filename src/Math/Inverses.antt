-- ===== src/Math/Inverses.antt =====
-- The inverses of o3djs/math.js: inverse2, inverse3 and inverse4.
use toolbox.Ring.{Reals}
use toolbox.Math.{Matrix2, Matrix3, Matrix4, array2, array3, array4}

module _ (f : Reals) where
  open f use {numbers, div as ◌/◌}
  open numbers use {Number, one, add as ◌+◌, sub as ◌-◌, mul as ◌*◌, neg}

  infixl 65 ◌+◌ ◌-◌
  infixl 70 ◌*◌ ◌/◌
  unfoldable pub inverse2 : Matrix2 Number → Matrix2 Number
  inverse2 m =
      let m00 = m.at0.at0 in
      let m01 = m.at0.at1 in
      let m10 = m.at1.at0 in
      let m11 = m.at1.at1 in
      let d = one / (m00 * m11 - m01 * m10) in
      array2 (array2 (d * m11) (neg d * m01)) (array2 (neg d * m10) (d * m00))

  unfoldable pub inverse3 : Matrix3 Number → Matrix3 Number
  inverse3 m =
      let m00 = m.at0.at0 in
      let m01 = m.at0.at1 in
      let m02 = m.at0.at2 in
      let m10 = m.at1.at0 in
      let m11 = m.at1.at1 in
      let m12 = m.at1.at2 in
      let m20 = m.at2.at0 in
      let m21 = m.at2.at1 in
      let m22 = m.at2.at2 in
      let t00 = m11 * m22 - m12 * m21 in
      let t10 = m01 * m22 - m02 * m21 in
      let t20 = m01 * m12 - m02 * m11 in
      let d = one / (m00 * t00 - m10 * t10 + m20 * t20) in
      array3 (array3 (d * t00) (neg d * t10) (d * t20))
        (array3 (neg d * (m10 * m22 - m12 * m20)) (d * (m00 * m22 - m02 * m20))
          (neg d * (m00 * m12 - m02 * m10)))
        (array3 (d * (m10 * m21 - m11 * m20)) (neg d * (m00 * m21 - m01 * m20))
          (d * (m00 * m11 - m01 * m10)))

  unfoldable pub inverse4 : Matrix4 Number → Matrix4 Number
  inverse4 m =
      let m00 = m.at0.at0 in
      let m01 = m.at0.at1 in
      let m02 = m.at0.at2 in
      let m03 = m.at0.at3 in
      let m10 = m.at1.at0 in
      let m11 = m.at1.at1 in
      let m12 = m.at1.at2 in
      let m13 = m.at1.at3 in
      let m20 = m.at2.at0 in
      let m21 = m.at2.at1 in
      let m22 = m.at2.at2 in
      let m23 = m.at2.at3 in
      let m30 = m.at3.at0 in
      let m31 = m.at3.at1 in
      let m32 = m.at3.at2 in
      let m33 = m.at3.at3 in
      let tmp_0 = m22 * m33 in
      let tmp_1 = m32 * m23 in
      let tmp_2 = m12 * m33 in
      let tmp_3 = m32 * m13 in
      let tmp_4 = m12 * m23 in
      let tmp_5 = m22 * m13 in
      let tmp_6 = m02 * m33 in
      let tmp_7 = m32 * m03 in
      let tmp_8 = m02 * m23 in
      let tmp_9 = m22 * m03 in
      let tmp_10 = m02 * m13 in
      let tmp_11 = m12 * m03 in
      let tmp_12 = m20 * m31 in
      let tmp_13 = m30 * m21 in
      let tmp_14 = m10 * m31 in
      let tmp_15 = m30 * m11 in
      let tmp_16 = m10 * m21 in
      let tmp_17 = m20 * m11 in
      let tmp_18 = m00 * m31 in
      let tmp_19 = m30 * m01 in
      let tmp_20 = m00 * m21 in
      let tmp_21 = m20 * m01 in
      let tmp_22 = m00 * m11 in
      let tmp_23 = m10 * m01 in
      let t0 =
        tmp_0 * m11 + tmp_3 * m21 + tmp_4 * m31 - (tmp_1 * m11 + tmp_2 * m21 + tmp_5 * m31) in
      let t1 =
        tmp_1 * m01 + tmp_6 * m21 + tmp_9 * m31 - (tmp_0 * m01 + tmp_7 * m21 + tmp_8 * m31) in
      let t2 =
        tmp_2 * m01 + tmp_7 * m11 + tmp_10 * m31 - (tmp_3 * m01 + tmp_6 * m11 + tmp_11 * m31) in
      let t3 =
        tmp_5 * m01 + tmp_8 * m11 + tmp_11 * m21 - (tmp_4 * m01 + tmp_9 * m11 + tmp_10 * m21) in
      let d = one / (m00 * t0 + m10 * t1 + m20 * t2 + m30 * t3) in
      array4 (array4 (d * t0) (d * t1) (d * t2) (d * t3))
        (array4
          (d
            * (tmp_1 * m10 + tmp_2 * m20 + tmp_5 * m30 - (tmp_0 * m10 + tmp_3 * m20 + tmp_4 * m30)))
          (d
            * (tmp_0 * m00 + tmp_7 * m20 + tmp_8 * m30 - (tmp_1 * m00 + tmp_6 * m20 + tmp_9 * m30)))
          (d
            * (tmp_3 * m00
                + tmp_6 * m10
                + tmp_11 * m30
                - (tmp_2 * m00 + tmp_7 * m10 + tmp_10 * m30)))
          (d
            * (tmp_4 * m00
                + tmp_9 * m10
                + tmp_10 * m20
                - (tmp_5 * m00 + tmp_8 * m10 + tmp_11 * m20))))
        (array4
          (d
            * (tmp_12 * m13
                + tmp_15 * m23
                + tmp_16 * m33
                - (tmp_13 * m13 + tmp_14 * m23 + tmp_17 * m33)))
          (d
            * (tmp_13 * m03
                + tmp_18 * m23
                + tmp_21 * m33
                - (tmp_12 * m03 + tmp_19 * m23 + tmp_20 * m33)))
          (d
            * (tmp_14 * m03
                + tmp_19 * m13
                + tmp_22 * m33
                - (tmp_15 * m03 + tmp_18 * m13 + tmp_23 * m33)))
          (d
            * (tmp_17 * m03
                + tmp_20 * m13
                + tmp_23 * m23
                - (tmp_16 * m03 + tmp_21 * m13 + tmp_22 * m23))))
        (array4
          (d
            * (tmp_14 * m22
                + tmp_17 * m32
                + tmp_13 * m12
                - (tmp_16 * m32 + tmp_12 * m12 + tmp_15 * m22)))
          (d
            * (tmp_20 * m32
                + tmp_12 * m02
                + tmp_19 * m22
                - (tmp_18 * m22 + tmp_21 * m32 + tmp_13 * m02)))
          (d
            * (tmp_18 * m12
                + tmp_23 * m32
                + tmp_15 * m02
                - (tmp_22 * m32 + tmp_14 * m02 + tmp_19 * m12)))
          (d
            * (tmp_22 * m22
                + tmp_16 * m02
                + tmp_21 * m12
                - (tmp_20 * m12 + tmp_23 * m22 + tmp_17 * m02))))
