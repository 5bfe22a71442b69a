-- ===== src/Quaternions/RoundTrip.antt =====
-- quaternionToRotation and then rotationToQuaternion of o3djs/quaternions.js.
mod Cases
use mathlib.Core.Path.{subst⁻¹}
use toolbox.Base.{◌≡◌, Bool, ◌&&◌}
use toolbox.Ring.{Numbers, IsRing, Reals, DivIsMul}
use toolbox.Math.{Array4, Matrix3, map3}
use toolbox.Math.Points.{get_upper3x3}
use toolbox.Quaternions.{length_squared, quaternion_to_rotation}
use toolbox.Quaternions.Conversion.{rotation_to_quaternion, two}
use Cases.{component, IsRoot, turned, value, rotation-turned, chosen}

module _ (f : Reals) (r : IsRing f.numbers) (law : DivIsMul f) where
  open f use {numbers}
  open numbers use {Number, one, zero, add, mul}

  -- A quaternion q of length one is restored by rotationToQuaternion(quaternionToRotation(q)),
  -- in each of its four cases (greater is any test for `>`), when the component that the case reads
  -- from a square root is a root: the square root of the square of its double is its double, as it
  -- is when the component is positive, and its double has a reciprocal; 1, 2 have reciprocals and
  -- quotients are products by reciprocals.
  pub rotation_to_quaternion-restores :
      (greater : Number → Number → Bool) (q : Array4 Number)
      (unit_length : length_squared numbers q ≡ one) (one_ok : mul (f.div one one) one ≡ one)
      (two_ok : mul (f.div one (two f)) (two f) ≡ one)
      → IsRoot f (component f greater (get_upper3x3 numbers (quaternion_to_rotation f q)) q)
      → rotation_to_quaternion f greater (get_upper3x3 numbers (quaternion_to_rotation f q)) ≡ q
  unfolding rotation_to_quaternion
  rotation_to_quaternion-restores greater q unit_length one_ok two_ok =
      let m = map3 (map3 (value f r law q unit_length)) turned in
      subst⁻¹ (λ m. IsRoot f (component f greater m q) → rotation_to_quaternion f greater m ≡ q)
        (rotation-turned f r law q unit_length one_ok)
        (chosen f r law q unit_length two_ok
          (greater (add (add m.at0.at0 m.at1.at1) m.at2.at2) zero)
          (greater m.at0.at0 m.at1.at1 && greater m.at0.at0 m.at2.at2)
          (greater m.at1.at1 m.at0.at0 && greater m.at1.at1 m.at2.at2))
