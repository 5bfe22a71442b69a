-- ===== src/Quaternions/Turning.antt =====
-- quaternionToRotation of o3djs/quaternions.js and products.
use toolbox.Base.{◌≡◌, refl, sym, ap, ◌∙◌, ◌++◌, ◌∷◌, []}
use toolbox.Ring.{Numbers, IsRing, Reals, DivIsMul}
use toolbox.Ring.Expressions.{Expr, expressions, var, nil, unit, times}
use toolbox.Ring.Solver.{solve, eval}
use toolbox.Math.{Array4, list4, map4}
use toolbox.Math.Compose.{composition}
use toolbox.Math.Symbolic.{variables4, solve44, symbolic, values}
use toolbox.Quaternions.Algebra.{reciprocal_same}
use toolbox.Quaternions.{mul_quaternion_quaternion, length_squared, quaternion_to_rotation}

-- `d` in an entry `x * d`, which stands for `x / d`.
abbrev pub divisor : Expr → Expr
divisor (times x d) = d
divisor e = nil

-- The numbers with each quotient written as a product by a reciprocal.
abbrev pub by_reciprocal : Reals → Reals
by_reciprocal f = record {
  numbers = f.numbers;
  div = λ a b. f.numbers.mul a (f.div f.numbers.one b);
  sqrt = f.sqrt;
  sin = f.sin;
  cos = f.cos;
  tan = f.tan;
  pi = f.pi;
}

abbrev pub by_reciprocal-same : (f : Reals) → DivIsMul f → f ≡ by_reciprocal f
by_reciprocal-same f law = λ i. record {
  numbers = f.numbers;
  div = λ a b. law a b i;
  sqrt = f.sqrt;
  sin = f.sin;
  cos = f.cos;
  tan = f.tan;
  pi = f.pi;
}

module _ (n : Numbers) (r : IsRing n) where
  -- Reciprocals are unique.
  reciprocal_unique :
      (a b x y z : n.Number)
      → n.mul x a ≡ n.one
      → n.mul y b ≡ n.one
      → n.mul z (n.mul a b) ≡ n.one
      → z ≡ n.mul x y
  reciprocal_unique a b x y z ha hb hab =
      let l = values n (a ∷ b ∷ x ∷ y ∷ z ∷ []) in
      let ones = times (var 4) (times unit unit) in
      let pairs = times (var 4) (times (times (var 2) (var 0)) (times (var 3) (var 1))) in
      let product = times (var 2) (var 3) in
      let grouped = times product (times (var 4) (times (var 0) (var 1))) in
      solve n r l (var 4) ones refl
      ∙ (λ i. n.mul z (n.mul (sym ha i) (sym hb i)))
      ∙ solve n r l pairs grouped refl
      ∙ ap (n.mul (n.mul x y)) hab
      ∙ solve n r l (times product unit) product refl

module _ (f : Reals) (r : IsRing f.numbers) (law : DivIsMul f) where
  open f use {numbers}
  open numbers use {Number, one, zero, mul}

  -- The rotation matrix of a product of quaternions is the composition of their rotation matrices,
  -- when quotients are products by reciprocals and the reciprocals that the code takes of the
  -- lengthSquared of the two quaternions, and that of the product of these, are reciprocals.
  pub quaternion_to_rotation-mul :
      (a b : Array4 Number)
      → mul (f.div one (length_squared numbers a)) (length_squared numbers a) ≡ one
      → mul (f.div one (length_squared numbers b)) (length_squared numbers b) ≡ one
      → mul
          (f.div one (mul (length_squared numbers a) (length_squared numbers b)))
          (mul (length_squared numbers a) (length_squared numbers b))
        ≡ one
      → quaternion_to_rotation f (mul_quaternion_quaternion numbers a b)
        ≡ composition numbers (quaternion_to_rotation f a) (quaternion_to_rotation f b)
  unfolding quaternion_to_rotation mul_quaternion_quaternion composition length_squared
  quaternion_to_rotation-mul a b ha hb hab =
      let x = variables4 0 in
      let y = variables4 4 in
      let by = λ (k : Expr). symbolic (λ u v. times u k) in
      let xy = mul_quaternion_quaternion expressions x y in
      let norm = λ (q : Array4 Expr). divisor (quaternion_to_rotation (symbolic times) q).at0.at0 in
      let l = list4 a ++ list4 b in
      let value = eval numbers (values numbers l) in
      let k_a = f.div one (value (norm x)) in
      let k_b = f.div one (value (norm y)) in
      let k_ab = f.div one (value (norm xy)) in
      let one_a =
        reciprocal_same f r (value (norm x)) (length_squared numbers a)
          (solve numbers r (values numbers l) (norm x) (length_squared expressions x) refl) ha in
      let one_b =
        reciprocal_same f r (value (norm y)) (length_squared numbers b)
          (solve numbers r (values numbers l) (norm y) (length_squared expressions y) refl) hb in
      let one_ab =
        reciprocal_same f r (value (norm xy))
          (mul (length_squared numbers a) (length_squared numbers b))
          (solve numbers r (values numbers l) (norm xy)
            (times (length_squared expressions x) (length_squared expressions y)) refl)
          hab in
      let split : k_ab ≡ mul k_a k_b =
        reciprocal_unique numbers r (length_squared numbers a) (length_squared numbers b) k_a k_b
          k_ab one_a one_b one_ab in
      let values_by = λ (k : Number). values numbers (l ++ k_a ∷ k_b ∷ k ∷ []) in
      (λ i.
        quaternion_to_rotation (by_reciprocal-same f law i) (mul_quaternion_quaternion numbers a b))
      ∙ ap (λ k. map4 (map4 (eval numbers (values_by k))) (quaternion_to_rotation (by (var 10)) xy))
          split
      ∙ solve44 numbers r (l ++ k_a ∷ k_b ∷ [])
          (quaternion_to_rotation (by (times (var 8) (var 9))) xy)
          (composition expressions (quaternion_to_rotation (by (var 8)) x)
            (quaternion_to_rotation (by (var 9)) y))
          refl
      ∙ sym (λ i.
        composition numbers (quaternion_to_rotation (by_reciprocal-same f law i) a)
          (quaternion_to_rotation (by_reciprocal-same f law i) b))
