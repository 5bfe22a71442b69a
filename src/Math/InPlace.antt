-- ===== src/Math/InPlace.antt =====
-- The changes of a matrix in place in o3djs/math.js beside compositions with new matrices.
use toolbox.Base.{◌≡◌, refl, List, ◌∷◌, [], ◌++◌}
use toolbox.Ring.{IsRing, Reals}
use toolbox.Ring.Expressions.{expressions, var}
use toolbox.Math.{Array3, Matrix4, entries4, list3, map3}
use toolbox.Math.Symbolic.{variables3, variables44, solve44, symbolic, shifted}
use toolbox.Math.Compose.{composition}
use toolbox.Math.Motions.{translation, translate, scaling, scale, identity, set_identity}
use toolbox.Math.Rotations.{rotation_x, rotation_y, rotation_z, rotate_x, rotate_y, rotate_z}
use toolbox.Math.Turns.{rotation_zyx, rotate_zyx, axis_rotation, axis_rotate}

-- The length of an axis is left aside: the quotients are the variables twelve further on.
abbrev quotients : Reals
quotients = symbolic (λ a b. shifted 12 a)

module _ (f : Reals) (r : IsRing f.numbers) where
  open f use {numbers, sin, cos}
  open numbers use {Number, add, mul}

  -- A matrix, three numbers (angles or an axis) and an angle; the sines, the cosines, the axis
  -- divided by its length.
  abbrev turn_values : Matrix4 Number → Array3 Number → Number → List Number
  turn_values m v angle =
      let n = f.sqrt (add (add (mul v.at0 v.at0) (mul v.at1 v.at1)) (mul v.at2 v.at2)) in
      entries4 m
      ++ list3 v
      ++ (angle ∷ [])
      ++ list3 (map3 sin v)
      ++ (sin angle ∷ [])
      ++ list3 (map3 cos v)
      ++ (cos angle ∷ [])
      ++ list3 (map3 (λ a. f.div a n) v)

  translate-composition :
      (m : Matrix4 Number) (v : Array3 Number)
      → translate numbers m v ≡ composition numbers m (translation numbers v)
  unfolding translate translation composition
  translate-composition m v =
      let x = variables44 0 in
      let u = variables3 16 in
      solve44 numbers r (entries4 m ++ list3 v) (translate expressions x u)
        (composition expressions x (translation expressions u)) refl

  scale-composition :
      (m : Matrix4 Number) (v : Array3 Number)
      → scale numbers m v ≡ composition numbers m (scaling numbers v)
  unfolding scale scaling composition
  scale-composition m v =
      let x = variables44 0 in
      let u = variables3 16 in
      solve44 numbers r (entries4 m ++ list3 v) (scale expressions x u)
        (composition expressions x (scaling expressions u)) refl

  axes-composition :
      (m : Matrix4 Number) (angle : Number)
      → (rotate_x f m angle ≡ composition numbers m (rotation_x f angle))
        × (rotate_y f m angle ≡ composition numbers m (rotation_y f angle))
        × (rotate_z f m angle ≡ composition numbers m (rotation_z f angle))
  unfolding rotate_x rotate_y rotate_z rotation_x rotation_y rotation_z composition
  axes-composition m angle =
      let x = variables44 0 in
      let l = turn_values m (record { at0 = angle; at1 = angle; at2 = angle }) angle in
      (
        solve44 numbers r l (rotate_x quotients x (var 19))
            (composition expressions x (rotation_x quotients (var 19))) refl,
        solve44 numbers r l (rotate_y quotients x (var 19))
            (composition expressions x (rotation_y quotients (var 19))) refl,
        solve44 numbers r l (rotate_z quotients x (var 19))
            (composition expressions x (rotation_z quotients (var 19))) refl,
      )

  turns-composition :
      (m : Matrix4 Number) (v : Array3 Number) (angle : Number)
      → (rotate_zyx f m v ≡ composition numbers m (rotation_zyx f v))
        × (axis_rotate f m v angle ≡ composition numbers m (axis_rotation f v angle))
  unfolding rotate_zyx rotation_zyx axis_rotate axis_rotation composition
  turns-composition m v angle =
      let x = variables44 0 in
      let u = variables3 16 in
      (
        solve44 numbers r (turn_values m v angle) (rotate_zyx quotients x u)
            (composition expressions x (rotation_zyx quotients u)) refl,
        solve44 numbers r (turn_values m v angle) (axis_rotate quotients x u (var 19))
            (composition expressions x (axis_rotation quotients u (var 19))) refl,
      )

  pub rotation_zyx-composition :
      (v : Array3 Number)
      → rotation_zyx f v
        ≡ composition numbers
            (rotation_z f v.at2)
            (composition numbers (rotation_y f v.at1) (rotation_x f v.at0))
  unfolding rotation_zyx rotation_x rotation_y rotation_z composition
  rotation_zyx-composition v =
      let u = variables3 16 in
      solve44 numbers r (turn_values (identity numbers) v v.at0) (rotation_zyx quotients u)
        (composition expressions (rotation_z quotients u.at2)
          (composition expressions (rotation_y quotients u.at1) (rotation_x quotients u.at0)))
        refl

  -- Each function of matrix4 that changes a matrix in place, translate, scale, rotateX, rotateY,
  -- rotateZ, rotateZYX and axisRotate, leaves in it the composition of the matrix with the new
  -- matrix that translation, scaling, rotationX, rotationY, rotationZ, rotationZYX or axisRotation
  -- makes from the same arguments; setIdentity leaves in it what identity makes.
  -- rotationZYX(v) is the composition of the rotations about the z axis by the third angle, about
  -- the y axis by the second and about the x axis by the first.
  pub in_place-composition :
      (m : Matrix4 Number) (v : Array3 Number) (angle : Number)
      → (translate numbers m v ≡ composition numbers m (translation numbers v))
        × (scale numbers m v ≡ composition numbers m (scaling numbers v))
        × (rotate_x f m angle ≡ composition numbers m (rotation_x f angle))
        × (rotate_y f m angle ≡ composition numbers m (rotation_y f angle))
        × (rotate_z f m angle ≡ composition numbers m (rotation_z f angle))
        × (rotate_zyx f m v ≡ composition numbers m (rotation_zyx f v))
        × (axis_rotate f m v angle ≡ composition numbers m (axis_rotation f v angle))
        × (set_identity numbers m ≡ identity numbers)
        × (rotation_zyx f v
            ≡ composition numbers
                (rotation_z f v.at2)
                (composition numbers (rotation_y f v.at1) (rotation_x f v.at0)))
  unfolding set_identity identity
  in_place-composition m v angle =
      let axes = axes-composition m angle in
      let turned = turns-composition m v angle in
      (
        translate-composition m v,
        scale-composition m v,
        axes.0,
        axes.1,
        axes.2,
        turned.0,
        turned.1,
        refl,
        rotation_zyx-composition v,
      )
