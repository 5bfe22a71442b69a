-- ===== src/Transform/Matrices.antt =====
-- The functions of o3d.Transform in o3d-webgl/transform.js that work on the matrices they are given.
use toolbox.Base.{Bool, true, false, ◌&&◌, List, [], ◌∷◌, ◌++◌, if◌then◌else◌}
use toolbox.Ring.{Numbers, Reals}
use toolbox.Math.{Array3, Array4, Matrix4, array3, array4}
use toolbox.Math.{list4}

module _ (n : Numbers) where
  open n use {Number, zero, one, add as ◌+◌, sub as ◌-◌, mul as ◌*◌, neg}

  infixl 65 ◌+◌ ◌-◌
  infixl 70 ◌*◌
  -- The inner loop of matricesEqual, over a row of each.
  unfoldable pub none_different :
      (different : Number → Number → Bool) → List Number → List Number → Bool
  none_different different [] b = true
  none_different different (x ∷ a) [] = false
  none_different different (x ∷ a) (y ∷ b) =
      let rest = none_different different a b in if different x y then false else rest

  -- The new value of the target, which is `a` when no target is given.
  unfoldable pub compose : Matrix4 Number → Matrix4 Number → Matrix4 Number
  compose a b =
      let a00 = a.at0.at0 in
      let a01 = a.at0.at1 in
      let a02 = a.at0.at2 in
      let a03 = a.at0.at3 in
      let a10 = a.at1.at0 in
      let a11 = a.at1.at1 in
      let a12 = a.at1.at2 in
      let a13 = a.at1.at3 in
      let a20 = a.at2.at0 in
      let a21 = a.at2.at1 in
      let a22 = a.at2.at2 in
      let a23 = a.at2.at3 in
      let a30 = a.at3.at0 in
      let a31 = a.at3.at1 in
      let a32 = a.at3.at2 in
      let a33 = a.at3.at3 in
      let b00 = b.at0.at0 in
      let b01 = b.at0.at1 in
      let b02 = b.at0.at2 in
      let b03 = b.at0.at3 in
      let b10 = b.at1.at0 in
      let b11 = b.at1.at1 in
      let b12 = b.at1.at2 in
      let b13 = b.at1.at3 in
      let b20 = b.at2.at0 in
      let b21 = b.at2.at1 in
      let b22 = b.at2.at2 in
      let b23 = b.at2.at3 in
      let b30 = b.at3.at0 in
      let b31 = b.at3.at1 in
      let b32 = b.at3.at2 in
      let b33 = b.at3.at3 in
      array4
        (array4 (a00 * b00 + a10 * b01 + a20 * b02 + a30 * b03)
          (a01 * b00 + a11 * b01 + a21 * b02 + a31 * b03)
          (a02 * b00 + a12 * b01 + a22 * b02 + a32 * b03)
          (a03 * b00 + a13 * b01 + a23 * b02 + a33 * b03))
        (array4 (a00 * b10 + a10 * b11 + a20 * b12 + a30 * b13)
          (a01 * b10 + a11 * b11 + a21 * b12 + a31 * b13)
          (a02 * b10 + a12 * b11 + a22 * b12 + a32 * b13)
          (a03 * b10 + a13 * b11 + a23 * b12 + a33 * b13))
        (array4 (a00 * b20 + a10 * b21 + a20 * b22 + a30 * b23)
          (a01 * b20 + a11 * b21 + a21 * b22 + a31 * b23)
          (a02 * b20 + a12 * b21 + a22 * b22 + a32 * b23)
          (a03 * b20 + a13 * b21 + a23 * b22 + a33 * b23))
        (array4 (a00 * b30 + a10 * b31 + a20 * b32 + a30 * b33)
          (a01 * b30 + a11 * b31 + a21 * b32 + a31 * b33)
          (a02 * b30 + a12 * b31 + a22 * b32 + a32 * b33)
          (a03 * b30 + a13 * b31 + a23 * b32 + a33 * b33))

  -- The entries, row by row, up to the first difference; `different` is the code's `!=`.
  unfoldable pub matrices_equal :
      (different : Number → Number → Bool) → Matrix4 Number → Matrix4 Number → Bool
  matrices_equal different a b =
      none_different different (list4 a.at0) (list4 b.at0)
      && none_different different (list4 a.at1) (list4 b.at1)
      && none_different different (list4 a.at2) (list4 b.at2)
      && none_different different (list4 a.at3) (list4 b.at3)

  -- The new value of the target, which is `m` when no target is given.
  unfoldable pub transpose : Matrix4 Number → Matrix4 Number
  transpose m =
      let m00 = m.at0.at0 in
      let m01 = m.at0.at1 in
      let m02 = m.at0.at2 in
      let m03 = m.at0.at3 in
      let m10 = m.at1.at0 in
      let m11 = m.at1.at1 in
      let m12 = m.at1.at2 in
      let m13 = m.at1.at3 in
      let m20 = m.at2.at0 in
      let m21 = m.at2.at1 in
      let m22 = m.at2.at2 in
      let m23 = m.at2.at3 in
      let m30 = m.at3.at0 in
      let m31 = m.at3.at1 in
      let m32 = m.at3.at2 in
      let m33 = m.at3.at3 in
      array4 (array4 m00 m10 m20 m30) (array4 m01 m11 m21 m31) (array4 m02 m12 m22 m32)
        (array4 m03 m13 m23 m33)

  unfoldable pub multiply_vector : Matrix4 Number → Array4 Number → Array4 Number
  multiply_vector m v =
      let v0 = v.at0 in
      let v1 = v.at1 in
      let v2 = v.at2 in
      let v3 = v.at3 in
      let m00 = m.at0.at0 in
      let m01 = m.at0.at1 in
      let m02 = m.at0.at2 in
      let m03 = m.at0.at3 in
      let m10 = m.at1.at0 in
      let m11 = m.at1.at1 in
      let m12 = m.at1.at2 in
      let m13 = m.at1.at3 in
      let m20 = m.at2.at0 in
      let m21 = m.at2.at1 in
      let m22 = m.at2.at2 in
      let m23 = m.at2.at3 in
      let m30 = m.at3.at0 in
      let m31 = m.at3.at1 in
      let m32 = m.at3.at2 in
      let m33 = m.at3.at3 in
      array4 (v0 * m00 + v1 * m10 + v2 * m20 + v3 * m30) (v0 * m01 + v1 * m11 + v2 * m21 + v3 * m31)
        (v0 * m02 + v1 * m12 + v2 * m22 + v3 * m32) (v0 * m03 + v1 * m13 + v2 * m23 + v3 * m33)

  unfoldable pub flatten_matrix4 : Matrix4 Number → List Number
  flatten_matrix4 m = list4 m.at0 ++ list4 m.at1 ++ list4 m.at2 ++ list4 m.at3

module _ (f : Reals) where
  open f use {numbers, div as ◌/◌}
  open numbers use {Number, zero, one, add as ◌+◌, sub as ◌-◌, mul as ◌*◌, neg}

  infixl 65 ◌+◌ ◌-◌
  infixl 70 ◌*◌ ◌/◌
  -- The new value of the target, which is `m` when no target is given.
  unfoldable pub inverse : Matrix4 Number → Matrix4 Number
  inverse m =
      let m00 = m.at0.at0 in
      let m01 = m.at0.at1 in
      let m02 = m.at0.at2 in
      let m03 = m.at0.at3 in
      let m10 = m.at1.at0 in
      let m11 = m.at1.at1 in
      let m12 = m.at1.at2 in
      let m13 = m.at1.at3 in
      let m20 = m.at2.at0 in
      let m21 = m.at2.at1 in
      let m22 = m.at2.at2 in
      let m23 = m.at2.at3 in
      let m30 = m.at3.at0 in
      let m31 = m.at3.at1 in
      let m32 = m.at3.at2 in
      let m33 = m.at3.at3 in
      let tmp_0 = m22 * m33 in
      let tmp_1 = m32 * m23 in
      let tmp_2 = m12 * m33 in
      let tmp_3 = m32 * m13 in
      let tmp_4 = m12 * m23 in
      let tmp_5 = m22 * m13 in
      let tmp_6 = m02 * m33 in
      let tmp_7 = m32 * m03 in
      let tmp_8 = m02 * m23 in
      let tmp_9 = m22 * m03 in
      let tmp_10 = m02 * m13 in
      let tmp_11 = m12 * m03 in
      let tmp_12 = m20 * m31 in
      let tmp_13 = m30 * m21 in
      let tmp_14 = m10 * m31 in
      let tmp_15 = m30 * m11 in
      let tmp_16 = m10 * m21 in
      let tmp_17 = m20 * m11 in
      let tmp_18 = m00 * m31 in
      let tmp_19 = m30 * m01 in
      let tmp_20 = m00 * m21 in
      let tmp_21 = m20 * m01 in
      let tmp_22 = m00 * m11 in
      let tmp_23 = m10 * m01 in
      let t0 =
        tmp_0 * m11 + tmp_3 * m21 + tmp_4 * m31 - (tmp_1 * m11 + tmp_2 * m21 + tmp_5 * m31) in
      let t1 =
        tmp_1 * m01 + tmp_6 * m21 + tmp_9 * m31 - (tmp_0 * m01 + tmp_7 * m21 + tmp_8 * m31) in
      let t2 =
        tmp_2 * m01 + tmp_7 * m11 + tmp_10 * m31 - (tmp_3 * m01 + tmp_6 * m11 + tmp_11 * m31) in
      let t3 =
        tmp_5 * m01 + tmp_8 * m11 + tmp_11 * m21 - (tmp_4 * m01 + tmp_9 * m11 + tmp_10 * m21) in
      let d = one / (m00 * t0 + m10 * t1 + m20 * t2 + m30 * t3) in
      array4 (array4 (d * t0) (d * t1) (d * t2) (d * t3))
        (array4
          (d
            * (tmp_1 * m10 + tmp_2 * m20 + tmp_5 * m30 - (tmp_0 * m10 + tmp_3 * m20 + tmp_4 * m30)))
          (d
            * (tmp_0 * m00 + tmp_7 * m20 + tmp_8 * m30 - (tmp_1 * m00 + tmp_6 * m20 + tmp_9 * m30)))
          (d
            * (tmp_3 * m00
                + tmp_6 * m10
                + tmp_11 * m30
                - (tmp_2 * m00 + tmp_7 * m10 + tmp_10 * m30)))
          (d
            * (tmp_4 * m00
                + tmp_9 * m10
                + tmp_10 * m20
                - (tmp_5 * m00 + tmp_8 * m10 + tmp_11 * m20))))
        (array4
          (d
            * (tmp_12 * m13
                + tmp_15 * m23
                + tmp_16 * m33
                - (tmp_13 * m13 + tmp_14 * m23 + tmp_17 * m33)))
          (d
            * (tmp_13 * m03
                + tmp_18 * m23
                + tmp_21 * m33
                - (tmp_12 * m03 + tmp_19 * m23 + tmp_20 * m33)))
          (d
            * (tmp_14 * m03
                + tmp_19 * m13
                + tmp_22 * m33
                - (tmp_15 * m03 + tmp_18 * m13 + tmp_23 * m33)))
          (d
            * (tmp_17 * m03
                + tmp_20 * m13
                + tmp_23 * m23
                - (tmp_16 * m03 + tmp_21 * m13 + tmp_22 * m23))))
        (array4
          (d
            * (tmp_14 * m22
                + tmp_17 * m32
                + tmp_13 * m12
                - (tmp_16 * m32 + tmp_12 * m12 + tmp_15 * m22)))
          (d
            * (tmp_20 * m32
                + tmp_12 * m02
                + tmp_19 * m22
                - (tmp_18 * m22 + tmp_21 * m32 + tmp_13 * m02)))
          (d
            * (tmp_18 * m12
                + tmp_23 * m32
                + tmp_15 * m02
                - (tmp_22 * m32 + tmp_14 * m02 + tmp_19 * m12)))
          (d
            * (tmp_22 * m22
                + tmp_16 * m02
                + tmp_21 * m12
                - (tmp_20 * m12 + tmp_23 * m22 + tmp_17 * m02))))

  unfoldable pub transform_point : Matrix4 Number → Array3 Number → Array3 Number
  transform_point m v =
      let v0 = v.at0 in
      let v1 = v.at1 in
      let v2 = v.at2 in
      let m00 = m.at0.at0 in
      let m01 = m.at0.at1 in
      let m02 = m.at0.at2 in
      let m03 = m.at0.at3 in
      let m10 = m.at1.at0 in
      let m11 = m.at1.at1 in
      let m12 = m.at1.at2 in
      let m13 = m.at1.at3 in
      let m20 = m.at2.at0 in
      let m21 = m.at2.at1 in
      let m22 = m.at2.at2 in
      let m23 = m.at2.at3 in
      let m30 = m.at3.at0 in
      let m31 = m.at3.at1 in
      let m32 = m.at3.at2 in
      let m33 = m.at3.at3 in
      let d = v0 * m03 + v1 * m13 + v2 * m23 + m33 in
      array3 ((v0 * m00 + v1 * m10 + v2 * m20 + m30) / d)
        ((v0 * m01 + v1 * m11 + v2 * m21 + m31) / d) ((v0 * m02 + v1 * m12 + v2 * m22 + m32) / d)

  unfoldable pub transform_point_z_only : Matrix4 Number → Array3 Number → Number
  transform_point_z_only m v =
      let v0 = v.at0 in
      let v1 = v.at1 in
      let v2 = v.at2 in
      let m02 = m.at0.at2 in
      let m03 = m.at0.at3 in
      let m12 = m.at1.at2 in
      let m13 = m.at1.at3 in
      let m22 = m.at2.at2 in
      let m23 = m.at2.at3 in
      let m32 = m.at3.at2 in
      let m33 = m.at3.at3 in
      (v0 * m02 + v1 * m12 + v2 * m22 + m32) / (v0 * m03 + v1 * m13 + v2 * m23 + m33)

  -- The new value of the target, which is `m` when no target is given.
  unfoldable pub axis_rotate_matrix : Matrix4 Number → Array3 Number → Number → Matrix4 Number
  axis_rotate_matrix m axis angle =
      let n = f.sqrt (axis.at0 * axis.at0 + axis.at1 * axis.at1 + axis.at2 * axis.at2) in
      let x = axis.at0 / n in
      let y = axis.at1 / n in
      let z = axis.at2 / n in
      let xx = x * x in
      let yy = y * y in
      let zz = z * z in
      let c = f.cos angle in
      let s = f.sin angle in
      let one_minus_cosine = one - c in
      let r00 = xx + (one - xx) * c in
      let r01 = x * y * one_minus_cosine + z * s in
      let r02 = x * z * one_minus_cosine - y * s in
      let r10 = x * y * one_minus_cosine - z * s in
      let r11 = yy + (one - yy) * c in
      let r12 = y * z * one_minus_cosine + x * s in
      let r20 = x * z * one_minus_cosine + y * s in
      let r21 = y * z * one_minus_cosine - x * s in
      let r22 = zz + (one - zz) * c in
      let m00 = m.at0.at0 in
      let m01 = m.at0.at1 in
      let m02 = m.at0.at2 in
      let m03 = m.at0.at3 in
      let m10 = m.at1.at0 in
      let m11 = m.at1.at1 in
      let m12 = m.at1.at2 in
      let m13 = m.at1.at3 in
      let m20 = m.at2.at0 in
      let m21 = m.at2.at1 in
      let m22 = m.at2.at2 in
      let m23 = m.at2.at3 in
      let m30 = m.at3.at0 in
      let m31 = m.at3.at1 in
      let m32 = m.at3.at2 in
      let m33 = m.at3.at3 in
      array4
        (array4 (r00 * m00 + r01 * m10 + r02 * m20) (r00 * m01 + r01 * m11 + r02 * m21)
          (r00 * m02 + r01 * m12 + r02 * m22) (r00 * m03 + r01 * m13 + r02 * m23))
        (array4 (r10 * m00 + r11 * m10 + r12 * m20) (r10 * m01 + r11 * m11 + r12 * m21)
          (r10 * m02 + r11 * m12 + r12 * m22) (r10 * m03 + r11 * m13 + r12 * m23))
        (array4 (r20 * m00 + r21 * m10 + r22 * m20) (r20 * m01 + r21 * m11 + r22 * m21)
          (r20 * m02 + r21 * m12 + r22 * m22) (r20 * m03 + r21 * m13 + r22 * m23))
        (array4 m30 m31 m32 m33)
