-- ===== src/Quaternions.antt =====
-- The quaternions of o3djs/quaternions.js as arrays of four numbers, the last the scalar part.
pub mod Algebra
mod Tests
pub mod Dispatch
pub mod Conversion
pub mod RoundTrip
pub mod Turning
use toolbox.Ring.{Numbers, Reals}
use toolbox.Math.{Array3, Array4, Matrix4, array4}

module _ (n : Numbers) where
  open n use {Number, zero, one, add as ◌+◌, sub as ◌-◌, mul as ◌*◌, neg}

  infixl 65 ◌+◌ ◌-◌
  infixl 70 ◌*◌
  unfoldable pub negative : Array4 Number → Array4 Number
  negative q = array4 (neg q.at0) (neg q.at1) (neg q.at2) (neg q.at3)

  unfoldable pub add_quaternion_quaternion : Array4 Number → Array4 Number → Array4 Number
  add_quaternion_quaternion a b =
      array4 (a.at0 + b.at0) (a.at1 + b.at1) (a.at2 + b.at2) (a.at3 + b.at3)

  unfoldable pub add_quaternion_scalar : Array4 Number → Number → Array4 Number
  add_quaternion_scalar a b = array4 a.at0 a.at1 a.at2 (a.at3 + b)

  unfoldable pub add_scalar_quaternion : Number → Array4 Number → Array4 Number
  add_scalar_quaternion a b = array4 b.at0 b.at1 b.at2 (a + b.at3)

  unfoldable pub sub_quaternion_quaternion : Array4 Number → Array4 Number → Array4 Number
  sub_quaternion_quaternion a b =
      array4 (a.at0 - b.at0) (a.at1 - b.at1) (a.at2 - b.at2) (a.at3 - b.at3)

  unfoldable pub sub_quaternion_scalar : Array4 Number → Number → Array4 Number
  sub_quaternion_scalar a b = array4 a.at0 a.at1 a.at2 (a.at3 - b)

  unfoldable pub sub_scalar_quaternion : Number → Array4 Number → Array4 Number
  sub_scalar_quaternion a b = array4 (neg b.at0) (neg b.at1) (neg b.at2) (a - b.at3)

  unfoldable pub mul_scalar_quaternion : Number → Array4 Number → Array4 Number
  mul_scalar_quaternion k q = array4 (k * q.at0) (k * q.at1) (k * q.at2) (k * q.at3)

  unfoldable pub mul_quaternion_scalar : Array4 Number → Number → Array4 Number
  mul_quaternion_scalar q k = array4 (k * q.at0) (k * q.at1) (k * q.at2) (k * q.at3)

  unfoldable pub mul_quaternion_quaternion : Array4 Number → Array4 Number → Array4 Number
  mul_quaternion_quaternion a b =
      let a_x = a.at0 in
      let a_y = a.at1 in
      let a_z = a.at2 in
      let a_w = a.at3 in
      let b_x = b.at0 in
      let b_y = b.at1 in
      let b_z = b.at2 in
      let b_w = b.at3 in
      array4 (a_w * b_x + a_x * b_w + a_y * b_z - a_z * b_y)
        (a_w * b_y + a_y * b_w + a_z * b_x - a_x * b_z)
        (a_w * b_z + a_z * b_w + a_x * b_y - a_y * b_x)
        (a_w * b_w - a_x * b_x - a_y * b_y - a_z * b_z)

  unfoldable pub length_squared : Array4 Number → Number
  length_squared a = a.at0 * a.at0 + a.at1 * a.at1 + a.at2 * a.at2 + a.at3 * a.at3

  unfoldable pub conjugate : Array4 Number → Array4 Number
  conjugate q = array4 (neg q.at0) (neg q.at1) (neg q.at2) q.at3

module _ (f : Reals) where
  open f use {numbers, div as ◌/◌}
  open numbers use {Number, zero, one, add as ◌+◌, sub as ◌-◌, mul as ◌*◌, neg}

  infixl 65 ◌+◌ ◌-◌
  infixl 70 ◌*◌ ◌/◌
  unfoldable pub div_quaternion_quaternion : Array4 Number → Array4 Number → Array4 Number
  div_quaternion_quaternion a b =
      let a_x = a.at0 in
      let a_y = a.at1 in
      let a_z = a.at2 in
      let a_w = a.at3 in
      let b_x = b.at0 in
      let b_y = b.at1 in
      let b_z = b.at2 in
      let b_w = b.at3 in
      let d = one / (b_w * b_w + b_x * b_x + b_y * b_y + b_z * b_z) in
      array4 ((a_x * b_w - a_w * b_x - a_y * b_z + a_z * b_y) * d)
        ((a_x * b_z - a_w * b_y + a_y * b_w - a_z * b_x) * d)
        ((a_y * b_x + a_z * b_w - a_w * b_z - a_x * b_y) * d)
        ((a_w * b_w + a_x * b_x + a_y * b_y + a_z * b_z) * d)

  unfoldable pub div_quaternion_scalar : Array4 Number → Number → Array4 Number
  div_quaternion_scalar q k = array4 (q.at0 / k) (q.at1 / k) (q.at2 / k) (q.at3 / k)

  unfoldable pub div_scalar_quaternion : Number → Array4 Number → Array4 Number
  div_scalar_quaternion a b =
      let b0 = b.at0 in
      let b1 = b.at1 in
      let b2 = b.at2 in
      let b3 = b.at3 in
      let d = one / (b0 * b0 + b1 * b1 + b2 * b2 + b3 * b3) in
      array4 (neg a * b0 * d) (neg a * b1 * d) (neg a * b2 * d) (a * b3 * d)

  unfoldable pub inverse : Array4 Number → Array4 Number
  inverse q =
      let q0 = q.at0 in
      let q1 = q.at1 in
      let q2 = q.at2 in
      let q3 = q.at3 in
      let d = one / (q0 * q0 + q1 * q1 + q2 * q2 + q3 * q3) in
      array4 (neg q0 * d) (neg q1 * d) (neg q2 * d) (q3 * d)

  unfoldable pub length : Array4 Number → Number
  length a = f.sqrt (a.at0 * a.at0 + a.at1 * a.at1 + a.at2 * a.at2 + a.at3 * a.at3)

  unfoldable pub normalize : Array4 Number → Array4 Number
  normalize a =
      let d = one / f.sqrt (a.at0 * a.at0 + a.at1 * a.at1 + a.at2 * a.at2 + a.at3 * a.at3) in
      array4 (a.at0 * d) (a.at1 * d) (a.at2 * d) (a.at3 * d)

  abbrev pub two : Number
  two = one + one

  unfoldable pub rotation_x : Number → Array4 Number
  rotation_x angle = array4 (f.sin (angle / two)) zero zero (f.cos (angle / two))

  unfoldable pub rotation_y : Number → Array4 Number
  rotation_y angle = array4 zero (f.sin (angle / two)) zero (f.cos (angle / two))

  unfoldable pub rotation_z : Number → Array4 Number
  rotation_z angle = array4 zero zero (f.sin (angle / two)) (f.cos (angle / two))

  unfoldable pub axis_rotation : Array3 Number → Number → Array4 Number
  axis_rotation axis angle =
      let d = one / f.sqrt (axis.at0 * axis.at0 + axis.at1 * axis.at1 + axis.at2 * axis.at2) in
      let sin = f.sin (angle / two) in
      let cos = f.cos (angle / two) in
      array4 (sin * axis.at0 * d) (sin * axis.at1 * d) (sin * axis.at2 * d) cos

  unfoldable pub quaternion_to_rotation : Array4 Number → Matrix4 Number
  quaternion_to_rotation q =
      let q_x = q.at0 in
      let q_y = q.at1 in
      let q_z = q.at2 in
      let q_w = q.at3 in
      let q_w_q_w = q_w * q_w in
      let q_w_q_x = q_w * q_x in
      let q_w_q_y = q_w * q_y in
      let q_w_q_z = q_w * q_z in
      let q_x_q_x = q_x * q_x in
      let q_x_q_y = q_x * q_y in
      let q_x_q_z = q_x * q_z in
      let q_y_q_y = q_y * q_y in
      let q_y_q_z = q_y * q_z in
      let q_z_q_z = q_z * q_z in
      let d = q_w_q_w + q_x_q_x + q_y_q_y + q_z_q_z in
      array4
        (array4 ((q_w_q_w + q_x_q_x - q_y_q_y - q_z_q_z) / d) (two * (q_w_q_z + q_x_q_y) / d)
          (two * (q_x_q_z - q_w_q_y) / d) zero)
        (array4 (two * (q_x_q_y - q_w_q_z) / d) ((q_w_q_w - q_x_q_x + q_y_q_y - q_z_q_z) / d)
          (two * (q_w_q_x + q_y_q_z) / d) zero)
        (array4 (two * (q_w_q_y + q_x_q_z) / d) (two * (q_y_q_z - q_w_q_x) / d)
          ((q_w_q_w - q_x_q_x - q_y_q_y + q_z_q_z) / d) zero)
        (array4 zero zero zero one)
