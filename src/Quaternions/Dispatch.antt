-- ===== src/Quaternions/Dispatch.antt =====
-- mathType and the operations that it chooses in o3djs/quaternions.js: mul, div, add and sub.
use toolbox.Base.{◌≡◌, refl, ap, Option, none, some, ◌++◌, ◌∷◌, []}
use toolbox.Ring.{IsRing, Reals}
use toolbox.Ring.Expressions.{expressions, var, nil}
use toolbox.Math.{Array4, array4, list4}
use toolbox.Math.Symbolic.{variables4, solve4}
use toolbox.Quaternions.{
  add_quaternion_quaternion, add_quaternion_scalar, add_scalar_quaternion,
  sub_quaternion_quaternion, sub_quaternion_scalar, sub_scalar_quaternion, mul_scalar_quaternion,
  mul_quaternion_scalar, mul_quaternion_quaternion, div_quaternion_quaternion,
  div_quaternion_scalar, div_scalar_quaternion,
}

-- A number or an array of four, as typeof tells them apart.
pub data Operand (A : Type 0) : Type 0 where
  scalar : A → Operand A
  quaternion : Array4 A → Operand A

module _ (f : Reals) where
  open f use {numbers}
  open numbers use {Number}

  -- There is no function for two scalars (none of 'mulScalarScalar' and the like is defined in
  -- quaternions.js): the call throws, which is `none`.
  unfoldable pub mul : Operand Number → Operand Number → Option (Array4 Number)
  mul (scalar a) (scalar b) = none
  mul (scalar a) (quaternion b) = some (mul_scalar_quaternion numbers a b)
  mul (quaternion a) (scalar b) = some (mul_quaternion_scalar numbers a b)
  mul (quaternion a) (quaternion b) = some (mul_quaternion_quaternion numbers a b)

  unfoldable pub div : Operand Number → Operand Number → Option (Array4 Number)
  div (scalar a) (scalar b) = none
  div (scalar a) (quaternion b) = some (div_scalar_quaternion f a b)
  div (quaternion a) (scalar b) = some (div_quaternion_scalar f a b)
  div (quaternion a) (quaternion b) = some (div_quaternion_quaternion f a b)

  unfoldable pub add : Operand Number → Operand Number → Option (Array4 Number)
  add (scalar a) (scalar b) = none
  add (scalar a) (quaternion b) = some (add_scalar_quaternion numbers a b)
  add (quaternion a) (scalar b) = some (add_quaternion_scalar numbers a b)
  add (quaternion a) (quaternion b) = some (add_quaternion_quaternion numbers a b)

  unfoldable pub sub : Operand Number → Operand Number → Option (Array4 Number)
  sub (scalar a) (scalar b) = none
  sub (scalar a) (quaternion b) = some (sub_scalar_quaternion numbers a b)
  sub (quaternion a) (scalar b) = some (sub_quaternion_scalar numbers a b)
  sub (quaternion a) (quaternion b) = some (sub_quaternion_quaternion numbers a b)

  -- A scalar as the quaternion with that scalar part.
  abbrev pub embed : Operand Number → Array4 Number
  embed (scalar a) = array4 numbers.zero numbers.zero numbers.zero a
  embed (quaternion q) = q

module _ (f : Reals) (r : IsRing f.numbers) where
  open f use {numbers}
  open numbers use {Number}

  mul-embed :
      (k : Operand Number) (q : Array4 Number)
      → (mul f k (quaternion q) ≡ some (mul_quaternion_quaternion numbers (embed f k) q))
        × (mul f (quaternion q) k ≡ some (mul_quaternion_quaternion numbers q (embed f k)))
  unfolding mul mul_quaternion_quaternion mul_scalar_quaternion mul_quaternion_scalar
  mul-embed (quaternion p) q = (refl, refl)
  mul-embed (scalar k) q =
      let x = variables4 0 in
      let u = array4 nil nil nil (var 4) in
      let l = list4 q ++ k ∷ [] in
      (
        ap some (
            solve4 numbers r l (mul_scalar_quaternion expressions (var 4) x)
              (mul_quaternion_quaternion expressions u x) refl),
        ap some (
            solve4 numbers r l (mul_quaternion_scalar expressions x (var 4))
              (mul_quaternion_quaternion expressions x u) refl),
      )

  add-embed :
      (k : Operand Number) (q : Array4 Number)
      → (add f k (quaternion q) ≡ some (add_quaternion_quaternion numbers (embed f k) q))
        × (add f (quaternion q) k ≡ some (add_quaternion_quaternion numbers q (embed f k)))
  unfolding add add_quaternion_quaternion add_scalar_quaternion add_quaternion_scalar
  add-embed (quaternion p) q = (refl, refl)
  add-embed (scalar k) q =
      let x = variables4 0 in
      let u = array4 nil nil nil (var 4) in
      let l = list4 q ++ k ∷ [] in
      (
        ap some (
            solve4 numbers r l (add_scalar_quaternion expressions (var 4) x)
              (add_quaternion_quaternion expressions u x) refl),
        ap some (
            solve4 numbers r l (add_quaternion_scalar expressions x (var 4))
              (add_quaternion_quaternion expressions x u) refl),
      )

  sub-embed :
      (k : Operand Number) (q : Array4 Number)
      → (sub f k (quaternion q) ≡ some (sub_quaternion_quaternion numbers (embed f k) q))
        × (sub f (quaternion q) k ≡ some (sub_quaternion_quaternion numbers q (embed f k)))
  unfolding sub sub_quaternion_quaternion sub_scalar_quaternion sub_quaternion_scalar
  sub-embed (quaternion p) q = (refl, refl)
  sub-embed (scalar k) q =
      let x = variables4 0 in
      let u = array4 nil nil nil (var 4) in
      let l = list4 q ++ k ∷ [] in
      (
        ap some (
            solve4 numbers r l (sub_scalar_quaternion expressions (var 4) x)
              (sub_quaternion_quaternion expressions u x) refl),
        ap some (
            solve4 numbers r l (sub_quaternion_scalar expressions x (var 4))
              (sub_quaternion_quaternion expressions x u) refl),
      )

  -- The operations on mixed operands treat a scalar as the quaternion with that scalar part: when
  -- one operand is a quaternion, mul, add and sub give the product, sum and difference of two
  -- quaternions. With two scalars mul, div, add and sub call a function that does not exist.
  pub operations-embed :
      (k : Operand Number) (q : Array4 Number) (a b : Number)
      → (mul f k (quaternion q) ≡ some (mul_quaternion_quaternion numbers (embed f k) q))
        × (mul f (quaternion q) k ≡ some (mul_quaternion_quaternion numbers q (embed f k)))
        × (add f k (quaternion q) ≡ some (add_quaternion_quaternion numbers (embed f k) q))
        × (add f (quaternion q) k ≡ some (add_quaternion_quaternion numbers q (embed f k)))
        × (sub f k (quaternion q) ≡ some (sub_quaternion_quaternion numbers (embed f k) q))
        × (sub f (quaternion q) k ≡ some (sub_quaternion_quaternion numbers q (embed f k)))
        × (mul f (scalar a) (scalar b) ≡ none)
        × (div f (scalar a) (scalar b) ≡ none)
        × (add f (scalar a) (scalar b) ≡ none)
        × (sub f (scalar a) (scalar b) ≡ none)
  unfolding mul div add sub
  operations-embed k q a b =
      let product = mul-embed k q in
      let sum = add-embed k q in
      let difference = sub-embed k q in
      (product.0, product.1, sum.0, sum.1, difference.0, difference.1, refl, refl, refl, refl)
