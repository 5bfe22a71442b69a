-- ===== src/Quaternions/Conversion.antt =====
-- rotationToQuaternion of o3djs/quaternions.js.
use toolbox.Base.{ℕ, zero, suc, Bool, ◌&&◌, if◌then◌else◌}
use toolbox.Ring.{Reals}
use toolbox.Math.{Array3, Array4, Matrix3, array4}

-- `v[i]`, for an index below three.
abbrev pub at3 : {A : Type 0} → ℕ → Array3 A → A
at3 zero v = v.at0
at3 (suc zero) v = v.at1
at3 (suc (suc i)) v = v.at2

-- `q[i] = x`, for an index below three.
abbrev pub put3 : {A : Type 0} → ℕ → A → Array4 A → Array4 A
put3 zero x q = array4 x q.at1 q.at2 q.at3
put3 (suc zero) x q = array4 q.at0 x q.at2 q.at3
put3 (suc (suc i)) x q = array4 q.at0 q.at1 x q.at3

module _ (f : Reals) where
  open f use {numbers, sqrt, div as ◌/◌}
  open numbers use {Number, one, add as ◌+◌, sub as ◌-◌, mul as ◌*◌}

  infixl 65 ◌+◌ ◌-◌
  infixl 70 ◌*◌ ◌/◌
  abbrev pub two : Number
  two = one + one

  abbrev pub half : Number
  half = one / two

  -- The case of a positive trace.
  unfoldable pub from_trace : Matrix3 Number → Array4 Number
  from_trace m =
      let trace = m.at0.at0 + m.at1.at1 + m.at2.at2 in
      let r = sqrt (one + trace) in
      let k = half / r in
      array4 ((m.at1.at2 - m.at2.at1) * k) ((m.at2.at0 - m.at0.at2) * k)
        ((m.at0.at1 - m.at1.at0) * k) (half * r)

  -- The case where the entry at `u` is the biggest of the diagonal.
  unfoldable pub from_biggest : ℕ → ℕ → ℕ → Matrix3 Number → Array4 Number
  from_biggest u v w m =
      let mu = at3 u m in
      let mv = at3 v m in
      let mw = at3 w m in
      let r = sqrt (one + at3 u mu - at3 v mv - at3 w mw) in
      let k = half / r in
      let q = array4 numbers.zero numbers.zero numbers.zero ((at3 w mv - at3 v mw) * k) in
      put3 w ((at3 w mu + at3 u mw) * k) (put3 v ((at3 u mv + at3 v mu) * k) (put3 u (half * r) q))

  -- `greater` is the code's `>`.
  unfoldable pub rotation_to_quaternion :
      (greater : Number → Number → Bool) → Matrix3 Number → Array4 Number
  rotation_to_quaternion greater m =
      let m00 = m.at0.at0 in
      let m11 = m.at1.at1 in
      let m22 = m.at2.at2 in
      if greater (m00 + m11 + m22) numbers.zero
      then from_trace m
      else if greater m00 m11 && greater m00 m22
      then from_biggest 0 1 2 m
      else if greater m11 m00 && greater m11 m22
      then from_biggest 1 2 0 m
      else from_biggest 2 0 1 m
