-- ===== src/Transform/SameAsMath.antt =====
-- The matrix code of o3d-webgl/transform.js beside that of o3djs/math.js and o3djs/quaternions.js.
use toolbox.Base.{◌≡◌, refl}
use toolbox.Ring.{Reals}
use toolbox.Math.{Array3, Array4, Matrix4}
use toolbox.Math.Compose
use toolbox.Math.Inverses.{inverse4}
use toolbox.Math.Points
use toolbox.Math.Motions
use toolbox.Math.Rotations
use toolbox.Math.Turns
use toolbox.Math.Matrices
use toolbox.Math.Products.{rows4}
use toolbox.Transform.Matrices.{
  compose, transpose, inverse, multiply_vector, transform_point, transform_point_z_only,
  axis_rotate_matrix,
}
use toolbox.Transform.Local.{
  identity, translate, scale, rotate_x, rotate_y, rotate_z, rotate_zyx, axis_rotate,
  quaternion_rotate,
}
use toolbox.Quaternions.{quaternion_to_rotation}

module _ (f : Reals) where
  open f use {numbers}
  open numbers use {Number}

  static_same :
      (undefined : Number) (a b : Matrix4 Number) (p : Array3 Number) (v : Array4 Number)
      → (compose numbers a b ≡ Compose.composition numbers a b)
        × (inverse f a ≡ inverse4 f a)
        × (multiply_vector numbers a v ≡ Points.transform_vector4 numbers a v)
        × (transform_point f a p ≡ Points.transform_point f a p)
        × (transform_point_z_only f a p ≡ (Points.transform_point f a p).at2)
        × (rows4 (transpose numbers a) ≡ Matrices.transpose numbers undefined (rows4 a))
  unfolding compose Compose.composition inverse inverse4 multiply_vector Points.transform_vector4
      transform_point Points.transform_point transform_point_z_only transpose Matrices.transpose
  static_same undefined a b p v = (refl, refl, refl, refl, refl, refl)

  local_same :
      (m : Matrix4 Number) (v : Array3 Number) (angle : Number) (q : Array4 Number)
      → (identity numbers m ≡ Motions.set_identity numbers m)
        × (translate numbers m v ≡ Motions.translate numbers m v)
        × (scale numbers m v ≡ Motions.scale numbers m v)
        × (rotate_x f m angle ≡ Rotations.rotate_x f m angle)
        × (rotate_y f m angle ≡ Rotations.rotate_y f m angle)
        × (rotate_z f m angle ≡ Rotations.rotate_z f m angle)
        × (rotate_zyx f m v ≡ Turns.rotate_zyx f m v)
        × (axis_rotate f m v angle ≡ Turns.axis_rotate f m v angle)
        × (quaternion_rotate f m q ≡ Compose.composition numbers m (quaternion_to_rotation f q))
  unfolding identity Motions.set_identity translate Motions.translate scale Motions.scale rotate_x
      Rotations.rotate_x rotate_y Rotations.rotate_y rotate_z Rotations.rotate_z rotate_zyx
      Turns.rotate_zyx axis_rotate axis_rotate_matrix Turns.axis_rotate quaternion_rotate compose
      Compose.composition quaternion_to_rotation
  local_same m v angle q = (refl, refl, refl, refl, refl, refl, refl, refl, refl)

  -- The matrix code of o3d.Transform does what its counterparts of o3djs do. On the matrices it is
  -- given: compose and matrix4.composition, inverse and inverse4, multiplyVector and
  -- matrix4.transformVector4, transformPoint and matrix4.transformPoint, transpose and
  -- math.transpose; transformPointZOnly is the third coordinate of transformPoint. On the local
  -- matrix: identity and setIdentity, and the in place translate, scale, rotateX, rotateY, rotateZ,
  -- rotateZYX and axisRotate; quaternionRotate leaves the composition of the local matrix with
  -- quaternionToRotation.
  pub transform_same :
      (undefined : Number) (m b : Matrix4 Number) (v : Array3 Number) (q : Array4 Number)
      (angle : Number)
      → (compose numbers m b ≡ Compose.composition numbers m b)
        × (inverse f m ≡ inverse4 f m)
        × (multiply_vector numbers m q ≡ Points.transform_vector4 numbers m q)
        × (transform_point f m v ≡ Points.transform_point f m v)
        × (transform_point_z_only f m v ≡ (Points.transform_point f m v).at2)
        × (rows4 (transpose numbers m) ≡ Matrices.transpose numbers undefined (rows4 m))
        × (identity numbers m ≡ Motions.set_identity numbers m)
        × (translate numbers m v ≡ Motions.translate numbers m v)
        × (scale numbers m v ≡ Motions.scale numbers m v)
        × (rotate_x f m angle ≡ Rotations.rotate_x f m angle)
        × (rotate_y f m angle ≡ Rotations.rotate_y f m angle)
        × (rotate_z f m angle ≡ Rotations.rotate_z f m angle)
        × (rotate_zyx f m v ≡ Turns.rotate_zyx f m v)
        × (axis_rotate f m v angle ≡ Turns.axis_rotate f m v angle)
        × (quaternion_rotate f m q ≡ Compose.composition numbers m (quaternion_to_rotation f q))
  transform_same undefined m b v q angle =
      let s = static_same undefined m b v q in
      let l = local_same m v angle q in
      (s.0, s.1, s.2, s.3, s.4, s.5, l.0, l.1, l.2, l.3, l.4, l.5, l.6, l.7, l.8)
