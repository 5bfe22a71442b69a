-- ===== src/Quaternions/Algebra.antt =====
-- The products, lengths, inverses and quotients of o3djs/quaternions.js.
use toolbox.Base.{◌≡◌, refl, ap, ◌∙◌, ◌++◌, ◌∷◌, []}
use toolbox.Ring.{Numbers, IsRing, Reals}
use toolbox.Ring.Expressions.{Expr, expressions, var, nil, unit, times}
use toolbox.Ring.Solver.{solve, eval}
use toolbox.Math.{Array4, array4, list4, map4}
use toolbox.Math.Symbolic.{variables4, solve4, symbolic, values}
use toolbox.Quaternions.{
  mul_quaternion_quaternion, length_squared, conjugate, inverse, div_quaternion_quaternion,
  div_scalar_quaternion, mul_scalar_quaternion,
}

-- `x` in a coordinate `t * (1 / x)` of an inverse or a quotient.
abbrev denominator : Expr → Expr
denominator (times t (times a x)) = x
denominator e = nil

abbrev by_eight : Reals
by_eight = symbolic (λ a b. var 8)

module _ (n : Numbers) (r : IsRing n) where
  -- mulQuaternionQuaternion is associative, lengthSquared of a product is the product of the
  -- lengths, the conjugate of a product is the product of the conjugates in the other order, and a
  -- quaternion times its conjugate is the scalar lengthSquared.
  pub mul_quaternion_quaternion-laws :
      (a b c : Array4 n.Number)
      → let mul = mul_quaternion_quaternion n in
        (mul (mul a b) c ≡ mul a (mul b c))
        × (length_squared n (mul a b) ≡ n.mul (length_squared n a) (length_squared n b))
        × (conjugate n (mul a b) ≡ mul (conjugate n b) (conjugate n a))
        × (mul a (conjugate n a) ≡ array4 n.zero n.zero n.zero (length_squared n a))
  unfolding mul_quaternion_quaternion length_squared conjugate
  mul_quaternion_quaternion-laws a b c =
      let x = variables4 0 in
      let y = variables4 4 in
      let z = variables4 8 in
      let l = list4 a ++ list4 b ++ list4 c in
      let mul = mul_quaternion_quaternion expressions in
      let norm = length_squared expressions in
      let bar = conjugate expressions in
      (
        solve4 n r l (mul (mul x y) z) (mul x (mul y z)) refl,
        solve n r (values n l) (norm (mul x y)) (times (norm x) (norm y)) refl,
        solve4 n r l (bar (mul x y)) (mul (bar y) (bar x)) refl,
        solve4 n r l (mul x (bar x)) (array4 nil nil nil (norm x)) refl,
      )

module _ (f : Reals) (r : IsRing f.numbers) where
  open f use {numbers}
  open numbers use {Number, one, zero, mul}

  pub reciprocal_same :
      (e d : Number) → e ≡ d → mul (f.div one d) d ≡ one → mul (f.div one e) d ≡ one
  reciprocal_same e d h g = ap (λ x. mul (f.div one x) d) h ∙ g

  inverse-mul_quaternion :
      (q : Array4 Number)
      → mul (f.div one (length_squared numbers q)) (length_squared numbers q) ≡ one
      → (mul_quaternion_quaternion numbers q (inverse f q) ≡ array4 zero zero zero one)
        × (mul_quaternion_quaternion numbers (inverse f q) q ≡ array4 zero zero zero one)
  unfolding mul_quaternion_quaternion inverse length_squared
  inverse-mul_quaternion q h =
      let x = variables4 0 in
      let l = list4 q ++ zero ∷ zero ∷ zero ∷ zero ∷ f.div one (length_squared numbers q) ∷ [] in
      let unit_by = array4 nil nil nil (times (var 8) (length_squared expressions x)) in
      let finish = ap (array4 zero zero zero) h in
      (
        solve4 numbers r l (mul_quaternion_quaternion expressions x (inverse by_eight x)) unit_by
              refl
            ∙ finish,
        solve4 numbers r l (mul_quaternion_quaternion expressions (inverse by_eight x) x) unit_by
              refl
            ∙ finish,
      )

  div_quaternion-inverse :
      (a b : Array4 Number) (k : Number)
      → (div_quaternion_quaternion f a b ≡ mul_quaternion_quaternion numbers a (inverse f b))
        × (div_scalar_quaternion f k b ≡ mul_scalar_quaternion numbers k (inverse f b))
  unfolding div_quaternion_quaternion mul_quaternion_quaternion inverse div_scalar_quaternion
      mul_scalar_quaternion
  div_quaternion-inverse a b k =
      let x = variables4 0 in
      let y = variables4 4 in
      let e = denominator (div_quaternion_quaternion (symbolic times) x y).at0 in
      let d = denominator (inverse (symbolic times) y).at0 in
      let l = λ (q : Number). list4 a ++ list4 b ++ q ∷ k ∷ [] in
      let product = mul_quaternion_quaternion expressions x (inverse by_eight y) in
      let value = λ (x : Expr). eval numbers (values numbers (l zero)) x in
      (
        solve4 numbers r (l (f.div one (value e))) (div_quaternion_quaternion by_eight x y) product
              refl
            ∙ ap (λ q. map4 (eval numbers (values numbers (l q))) product)
                (ap (f.div one) (solve numbers r (values numbers (l zero)) e d refl)),
        solve4 numbers r (l (f.div one (value d))) (div_scalar_quaternion by_eight (var 9) y)
            (mul_scalar_quaternion expressions (var 9) (inverse by_eight y)) refl,
      )

  mul_quaternion_quaternion_unit :
      (a : Array4 Number) → mul_quaternion_quaternion numbers a (array4 zero zero zero one) ≡ a
  unfolding mul_quaternion_quaternion
  mul_quaternion_quaternion_unit a =
      let x = variables4 0 in
      solve4 numbers r (list4 a) (mul_quaternion_quaternion expressions x (array4 nil nil nil unit))
        x refl

  -- inverse(q) is the inverse of q on both sides for mulQuaternionQuaternion, whose unit is
  -- [0, 0, 0, 1], when `1 / lengthSquared(q)` is a reciprocal of `lengthSquared(q)`. Under the same
  -- condition divQuaternionQuaternion(a, q) times q is a; it is the product of a and inverse(q), and
  -- divScalarQuaternion(k, q) is k times inverse(q).
  pub inverse-laws :
      (a q : Array4 Number) (k : Number)
      → mul (f.div one (length_squared numbers q)) (length_squared numbers q) ≡ one
      → (mul_quaternion_quaternion numbers q (inverse f q) ≡ array4 zero zero zero one)
        × (mul_quaternion_quaternion numbers (inverse f q) q ≡ array4 zero zero zero one)
        × (mul_quaternion_quaternion numbers (div_quaternion_quaternion f a q) q ≡ a)
        × (div_quaternion_quaternion f a q ≡ mul_quaternion_quaternion numbers a (inverse f q))
        × (div_scalar_quaternion f k q ≡ mul_scalar_quaternion numbers k (inverse f q))
  inverse-laws a q k h =
      let inverses = inverse-mul_quaternion q h in
      let quotients = div_quaternion-inverse a q k in
      let times_q = λ (p : Array4 Number). mul_quaternion_quaternion numbers p q in
      (
        inverses.0,
        inverses.1,
        ap times_q quotients.0
            ∙ (mul_quaternion_quaternion-laws numbers r a (inverse f q) q).0
            ∙ ap (mul_quaternion_quaternion numbers a) inverses.1
            ∙ mul_quaternion_quaternion_unit a,
        quotients.0,
        quotients.1,
      )
