-- ===== src/Math/Orthogonal.antt =====
-- The rotations of o3djs/math.js composed with their transposes.
use toolbox.Base.{◌≡◌, refl, ap, ◌∙◌, ◌++◌, ◌∷◌, []}
use mathlib.Core.Path.{subst⁻¹}
use toolbox.Ring.{Numbers, IsRing, Reals}
use toolbox.Ring.Expressions.{Expr, expressions, var, unit, plus, times}
use toolbox.Math.{Array3, Matrix4, array4, list3, entries4, map3}
use toolbox.Math.Symbolic.{variables3, variables44, solve44, symbolic, shifted}
use toolbox.Math.Compose.{composition}
use toolbox.Math.Motions.{identity}
use toolbox.Math.Rotations.{rotation_x, rotation_y, rotation_z}
use toolbox.Math.Turns.{rotation_zyx, axis_rotation}
use toolbox.Math.InPlace.{rotation_zyx-composition}
use toolbox.Transform.Matrices.{transpose}

abbrev quotients : Reals
quotients = symbolic (λ a b. shifted 3 a)

module _ (n : Numbers) where
  abbrev diagonal : n.Number → n.Number → n.Number → Matrix4 n.Number
  diagonal x y z =
      array4 (array4 x n.zero n.zero n.zero) (array4 n.zero y n.zero n.zero)
        (array4 n.zero n.zero z n.zero) (array4 n.zero n.zero n.zero n.one)

  -- Orthogonal: the transpose is an inverse.
  abbrev pub IsOrthogonal : Matrix4 n.Number → Type 0
  IsOrthogonal m = composition n m (transpose n m) ≡ identity n

module _ (n : Numbers) (r : IsRing n) where
  IsOrthogonal-composition :
      (a b : Matrix4 n.Number)
      → IsOrthogonal n a
      → IsOrthogonal n b
      → IsOrthogonal n (composition n a b)
  unfolding composition transpose identity
  IsOrthogonal-composition a b h g =
      let x = variables44 0 in
      let y = variables44 16 in
      let l = entries4 a ++ entries4 b in
      let bar = transpose expressions in
      let compose = composition expressions in
      let whole = compose (compose x y) (bar (compose x y)) in
      let nested = compose (compose x (compose y (bar y))) (bar x) in
      let middle = compose (compose x (identity expressions)) (bar x) in
      solve44 n r l whole nested refl
      ∙ ap (λ m. composition n (composition n a m) (transpose n a)) g
      ∙ solve44 n r l middle (compose x (bar x)) refl
      ∙ h

module _ (f : Reals) (r : IsRing f.numbers) where
  open f use {numbers, sin, cos}
  open numbers use {Number, one, zero, add, mul}

  abbrev circle : Number → Number
  circle angle = add (mul (cos angle) (cos angle)) (mul (sin angle) (sin angle))

  abbrev circle_expr : Expr
  circle_expr = plus (times (var 8) (var 8)) (times (var 4) (var 4))

  axes-IsOrthogonal :
      (angle : Number)
      → circle angle ≡ one
      → IsOrthogonal numbers (rotation_x f angle)
        × IsOrthogonal numbers (rotation_y f angle)
        × IsOrthogonal numbers (rotation_z f angle)
  unfolding rotation_x rotation_y rotation_z composition transpose identity
  axes-IsOrthogonal angle h =
      let l = angle ∷ zero ∷ zero ∷ zero ∷ sin angle ∷ zero ∷ zero ∷ zero ∷ cos angle ∷ [] in
      let square = λ (m : Matrix4 Expr). composition expressions m (transpose expressions m) in
      (
        solve44 numbers r l (square (rotation_x quotients (var 0)))
              (diagonal expressions unit circle_expr circle_expr) refl
            ∙ (λ i. diagonal numbers one (h i) (h i)),
        solve44 numbers r l (square (rotation_y quotients (var 0)))
              (diagonal expressions circle_expr unit circle_expr) refl
            ∙ (λ i. diagonal numbers (h i) one (h i)),
        solve44 numbers r l (square (rotation_z quotients (var 0)))
              (diagonal expressions circle_expr circle_expr unit) refl
            ∙ (λ i. diagonal numbers (h i) (h i) one),
      )

  -- The square of the rotation about (x, y, z), by the length `n` of that vector and c² + s², `d`.
  abbrev axis_square :
      (m : Numbers) → m.Number → m.Number → (s c : m.Number) → Array3 m.Number → Matrix4 m.Number
  axis_square m n d s c u =
      let on = m.add d (m.mul (m.mul s s) (m.sub n m.one)) in
      let e = m.sub m.one c in
      let off = m.add (m.mul (m.mul e e) (m.sub n m.one)) (m.sub m.one d) in
      let at = λ (x y : m.Number). m.mul off (m.mul x y) in
      array4 (array4 (m.add on (at u.at0 u.at0)) (at u.at0 u.at1) (at u.at0 u.at2) m.zero)
        (array4 (at u.at1 u.at0) (m.add on (at u.at1 u.at1)) (at u.at1 u.at2) m.zero)
        (array4 (at u.at2 u.at0) (at u.at2 u.at1) (m.add on (at u.at2 u.at2)) m.zero)
        (array4 m.zero m.zero m.zero m.one)

  abbrev norm : Array3 Number → Number
  norm v = add (add (mul v.at0 v.at0) (mul v.at1 v.at1)) (mul v.at2 v.at2)

  -- The axis divided by its length.
  abbrev direction : Array3 Number → Array3 Number
  direction axis = map3 (λ x. f.div x (f.sqrt (norm axis))) axis

  axis_rotation-IsOrthogonal :
      (axis : Array3 Number) (angle : Number)
      → circle angle ≡ one
      → norm (direction axis) ≡ one
      → IsOrthogonal numbers (axis_rotation f axis angle)
  unfolding axis_rotation composition transpose identity
  axis_rotation-IsOrthogonal axis angle h g =
      let m = axis_rotation quotients (variables3 0) (var 6) in
      let u = variables3 3 in
      let s = sin angle in
      let c = cos angle in
      let l =
        list3 axis
        ++ list3 (direction axis)
        ++ angle ∷ zero ∷ zero ∷ zero ∷ s ∷ zero ∷ zero ∷ zero ∷ c ∷ [] in
      let square = λ (n d : Expr). axis_square expressions n d (var 10) (var 14) u in
      let n_expr = plus (plus (times u.at0 u.at0) (times u.at1 u.at1)) (times u.at2 u.at2) in
      let d_expr = plus (times (var 14) (var 14)) (times (var 10) (var 10)) in
      solve44 numbers r l (composition expressions m (transpose expressions m))
        (square n_expr d_expr) refl
      ∙ (λ i. axis_square numbers (g i) (h i) s c (direction axis))
      ∙ solve44 numbers r l (square unit unit) (identity expressions) refl

  -- The matrices of rotationX, rotationY, rotationZ, rotationZYX and axisRotation are orthogonal, the
  -- transpose is an inverse, when the squares of a cosine and a sine of an angle have the sum one
  -- and the axis, divided by its length, has length one.
  pub rotations-IsOrthogonal :
      (angle : Number) (v axis : Array3 Number)
      → ((a : Number) → circle a ≡ one)
      → norm (direction axis) ≡ one
      → IsOrthogonal numbers (rotation_x f angle)
        × IsOrthogonal numbers (rotation_y f angle)
        × IsOrthogonal numbers (rotation_z f angle)
        × IsOrthogonal numbers (rotation_zyx f v)
        × IsOrthogonal numbers (axis_rotation f axis angle)
  rotations-IsOrthogonal angle v axis h g =
      let axes = axes-IsOrthogonal angle (h angle) in
      let x = (axes-IsOrthogonal v.at0 (h v.at0)).0 in
      let y = (axes-IsOrthogonal v.at1 (h v.at1)).1 in
      let z = (axes-IsOrthogonal v.at2 (h v.at2)).2 in
      let zyx =
        IsOrthogonal-composition numbers r _ _ z (IsOrthogonal-composition numbers r _ _ y x) in
      (
        axes.0,
        axes.1,
        axes.2,
        subst⁻¹ (IsOrthogonal numbers) (rotation_zyx-composition f r v) zyx,
        axis_rotation-IsOrthogonal axis angle (h angle) g,
      )
