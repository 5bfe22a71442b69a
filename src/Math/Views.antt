-- ===== src/Math/Views.antt =====
-- The projections of o3djs/math.js and its view matrix, lookAt.
use toolbox.Ring.{Reals}
use toolbox.Math.{Array3, Array4, Matrix4, array3, array4}
use toolbox.Math.Inverses.{inverse4}

module _ (f : Reals) where
  open f use {numbers, div as ◌/◌}
  open numbers use {Number, zero, one, add as ◌+◌, sub as ◌-◌, mul as ◌*◌, neg}

  infixl 65 ◌+◌ ◌-◌
  infixl 70 ◌*◌ ◌/◌
  abbrev pub two : Number
  two = one + one

  abbrev pub half : Number
  half = one / two

  unfoldable pub perspective : Number → Number → Number → Number → Matrix4 Number
  perspective angle aspect near far =
      let cot = f.tan (half * (f.pi - angle)) in
      let range = near - far in
      array4 (array4 (cot / aspect) zero zero zero) (array4 zero cot zero zero)
        (array4 zero zero (far / range) (neg one)) (array4 zero zero (near * far / range) zero)

  unfoldable pub orthographic : Number → Number → Number → Number → Number → Number → Matrix4 Number
  orthographic left right bottom top near far =
      array4 (array4 (two / (right - left)) zero zero zero)
        (array4 zero (two / (top - bottom)) zero zero) (array4 zero zero (one / (near - far)) zero)
        (array4 ((left + right) / (left - right)) ((bottom + top) / (bottom - top))
          (near / (near - far)) one)

  unfoldable pub frustum : Number → Number → Number → Number → Number → Number → Matrix4 Number
  frustum left right bottom top near far =
      let dx = right - left in
      let dy = top - bottom in
      let dz = near - far in
      array4 (array4 (two * near / dx) zero zero zero) (array4 zero (two * near / dy) zero zero)
        (array4 ((left + right) / dx) ((top + bottom) / dy) (far / dz) (neg one))
        (array4 zero zero (near * far / dz) zero)

  -- Of an array of three numbers: its subVector, cross and normalize.
  unfoldable pub sub_vector : Array3 Number → Array3 Number → Array3 Number
  sub_vector a b = array3 (a.at0 - b.at0) (a.at1 - b.at1) (a.at2 - b.at2)

  unfoldable pub cross : Array3 Number → Array3 Number → Array3 Number
  cross a b =
      array3 (a.at1 * b.at2 - a.at2 * b.at1) (a.at2 * b.at0 - a.at0 * b.at2)
        (a.at0 * b.at1 - a.at1 * b.at0)

  unfoldable pub normalize : Array3 Number → Array3 Number
  normalize a =
      let n = f.sqrt (zero + a.at0 * a.at0 + a.at1 * a.at1 + a.at2 * a.at2) in
      array3 (a.at0 / n) (a.at1 / n) (a.at2 / n)

  -- `concat`.
  abbrev pub concat : Array3 Number → Number → Array4 Number
  concat v w = array4 v.at0 v.at1 v.at2 w

  -- The rows x, y, z of the camera and its position.
  abbrev pub camera : Array3 Number → Array3 Number → Array3 Number → Matrix4 Number
  camera eye target up =
      let vz = normalize (sub_vector eye target) in
      let vx = normalize (cross up vz) in
      let vy = cross vz vx in
      array4 (concat vx zero) (concat vy zero) (concat vz zero) (concat eye one)

  unfoldable pub look_at : Array3 Number → Array3 Number → Array3 Number → Matrix4 Number
  look_at eye target up = inverse4 f (camera eye target up)
