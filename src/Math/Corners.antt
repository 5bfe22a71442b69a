-- ===== src/Math/Corners.antt =====
-- The projections of o3djs/math.js at the corners of their volumes.
use toolbox.Base.{ℕ, zero, suc, ◌+◌, ◌≡◌, true, refl, sym, ap, ◌∙◌, ◌++◌, ◌∷◌, [], List}
use toolbox.Ring.{IsRing, Reals, DivIsMul}
use toolbox.Ring.Expressions.{Expr, expressions, var, nil, unit, minus, times, negated, same_expr}
use toolbox.Ring.Solver.{solve, eval}
use toolbox.Math.{Array4, array4, map4}
use toolbox.Math.Symbolic.{all4, solve4, symbolic, values}
use toolbox.Math.Points.{transform_vector4}
use toolbox.Math.Views.{frustum, orthographic}
use toolbox.Quaternions.Turning.{by_reciprocal-same}

-- The reciprocal of a difference `x - y` of planes is the variable six after that of x.
abbrev difference_reciprocal : Expr → Expr
difference_reciprocal (minus (var x) b) = var (6 + x)
difference_reciprocal e = nil

abbrev planes : Reals
planes = symbolic (λ a b. times a (difference_reciprocal b))

-- With the reciprocals of left - right and bottom - top from those of right - left and top - bottom.
abbrev opposite_reciprocal : Expr → Expr
opposite_reciprocal (minus (var zero) b) = negated (var 7)
opposite_reciprocal (minus (var (suc (suc zero))) b) = negated (var 9)
opposite_reciprocal e = difference_reciprocal e

abbrev opposite_planes : Reals
opposite_planes = symbolic (λ a b. times a (opposite_reciprocal b))

module _ (f : Reals) (r : IsRing f.numbers) (law : DivIsMul f) where
  open f use {numbers}
  open numbers use {Number, one, zero, add, sub, mul, neg}

  -- The difference has a reciprocal.
  abbrev Differ : Number → Number → Type 0
  Differ x y = mul (f.div one (sub x y)) (sub x y) ≡ one

  abbrev plane_values : (left right bottom top near far : Number) → List Number
  plane_values left right bottom top near far =
      left
      ∷ right
      ∷ bottom
      ∷ top
      ∷ near
      ∷ far
      ∷ f.div one (sub left right)
      ∷ f.div one (sub right left)
      ∷ f.div one (sub bottom top)
      ∷ f.div one (sub top bottom)
      ∷ f.div one (sub near far)
      ∷ []

  -- The same without reciprocals of left - right and bottom - top.
  abbrev opposite_values : (left right bottom top near far : Number) → List Number
  opposite_values left right bottom top near far =
      left
      ∷ right
      ∷ bottom
      ∷ top
      ∷ near
      ∷ far
      ∷ neg (f.div one (sub right left))
      ∷ f.div one (sub right left)
      ∷ neg (f.div one (sub top bottom))
      ∷ f.div one (sub top bottom)
      ∷ f.div one (sub near far)
      ∷ []

  abbrev ratio : ℕ → ℕ → Expr
  ratio x y = times (var (6 + x)) (minus (var x) (var y))

  frustum_at :
      (left right bottom top near far : Number) (rest : List Number) (v : Array4 Expr)
      (w : Array4 Expr)
      → all4 same_expr
          (transform_vector4 expressions
            (frustum planes (var 0) (var 1) (var 2) (var 3) (var 4) (var 5))
            v)
          w
        ≡ true
      → let value =
          map4
            (eval numbers (values numbers (plane_values left right bottom top near far ++ rest))) in
        transform_vector4 numbers (frustum f left right bottom top near far) (value v) ≡ value w
  unfolding frustum transform_vector4
  frustum_at left right bottom top near far rest v w h =
      let l = plane_values left right bottom top near far ++ rest in
      let value = map4 (eval numbers (values numbers l)) in
      (λ i.
        transform_vector4 numbers
          (frustum (by_reciprocal-same f law i) left right bottom top near far) (value v))
      ∙ solve4 numbers r l
          (transform_vector4 expressions
            (frustum planes (var 0) (var 1) (var 2) (var 3) (var 4) (var 5)) v)
          w h

  mul-one : (x p : Number) → p ≡ one → mul x p ≡ x
  mul-one x p h = ap (mul x) h ∙ r.mul_comm x one ∙ r.one-mul x

  -- The reciprocal of the opposite difference.
  reciprocal_opposite :
      (x y : Number) → Differ x y → Differ y x → f.div one (sub x y) ≡ neg (f.div one (sub y x))
  reciprocal_opposite x y h g =
      let k = f.div one (sub x y) in
      let k' = f.div one (sub y x) in
      let l = values numbers (x ∷ y ∷ k ∷ k' ∷ []) in
      let forth = minus (var 0) (var 1) in
      let back = minus (var 1) (var 0) in
      let by_back = times (var 2) (times (var 3) back) in
      let by_forth = negated (times (var 3) (times (var 2) forth)) in
      sym (mul-one k _ g) ∙ solve numbers r l by_back by_forth refl ∙ ap neg (mul-one k' _ h)

  orthographic_at :
      (left right bottom top near far : Number) (v w : Array4 Expr)
      → Differ left right
      → Differ right left
      → Differ bottom top
      → Differ top bottom
      → all4 same_expr
          (transform_vector4 expressions
            (orthographic opposite_planes (var 0) (var 1) (var 2) (var 3) (var 4) (var 5))
            v)
          w
        ≡ true
      → let value =
          map4 (eval numbers (values numbers (opposite_values left right bottom top near far))) in
        transform_vector4 numbers (orthographic f left right bottom top near far) (value v)
        ≡ value w
  unfolding orthographic transform_vector4
  orthographic_at left right bottom top near far v w h g h' g' s =
      let l = opposite_values left right bottom top near far in
      let value = map4 (eval numbers (values numbers l)) in
      let k = reciprocal_opposite left right h g in
      let k' = reciprocal_opposite bottom top h' g' in
      (λ i.
        transform_vector4 numbers
          (orthographic (by_reciprocal-same f law i) left right bottom top near far) (value v))
      ∙ (λ i.
          transform_vector4 numbers
            (map4
              (map4 (
                eval numbers (
                  values numbers (
                    left
                    ∷ right
                    ∷ bottom
                    ∷ top
                    ∷ near
                    ∷ far
                    ∷ k i
                    ∷ f.div one (sub right left)
                    ∷ k' i
                    ∷ f.div one (sub top bottom)
                    ∷ f.div one (sub near far)
                    ∷ []))))
              (orthographic planes (var 0) (var 1) (var 2) (var 3) (var 4) (var 5)))
            (value v))
      ∙ solve4 numbers r l
          (transform_vector4 expressions
            (orthographic opposite_planes (var 0) (var 1) (var 2) (var 3) (var 4) (var 5)) v)
          w s

  frustum-corners :
      (left right bottom top near far x y : Number)
      → Differ right left
      → Differ top bottom
      → Differ near far
      → let image = transform_vector4 numbers (frustum f left right bottom top near far) in
        (image (array4 left bottom (neg near) one) ≡ array4 (neg near) (neg near) zero near)
        × (image (array4 right top (neg near) one) ≡ array4 near near zero near)
        × ((image (array4 x y (neg far) one)).at2 ≡ far)
        × ((image (array4 x y (neg far) one)).at3 ≡ far)
  unfolding frustum transform_vector4
  frustum-corners left right bottom top near far x y hx hy hz =
      let of_near = times (var 4) in
      let image = frustum_at left right bottom top near far (x ∷ y ∷ []) in
      let left_corner = array4 (var 0) (var 2) (negated (var 4)) unit in
      let right_corner = array4 (var 1) (var 3) (negated (var 4)) unit in
      let far_point = array4 (var 11) (var 12) (negated (var 5)) unit in
      let far_image =
        transform_vector4 expressions
          (frustum planes (var 0) (var 1) (var 2) (var 3) (var 4) (var 5)) far_point in
      let at_far =
        image far_point (array4 far_image.at0 far_image.at1 (times (var 5) (ratio 4 5)) (var 5))
          refl in
      (
        image left_corner
              (array4 (negated (of_near (ratio 1 0))) (negated (of_near (ratio 3 2))) nil (var 4))
              refl
            ∙ (λ i. array4 (neg (mul-one near _ hx i)) (neg (mul-one near _ hy i)) zero near),
        image right_corner (array4 (of_near (ratio 1 0)) (of_near (ratio 3 2)) nil (var 4)) refl
            ∙ (λ i. array4 (mul-one near _ hx i) (mul-one near _ hy i) zero near),
        ap (λ v. v.at2) at_far ∙ mul-one far _ hz,
        ap (λ v. v.at3) at_far,
      )

  orthographic-corners :
      (left right bottom top near far : Number)
      → Differ left right
      → Differ right left
      → Differ bottom top
      → Differ top bottom
      → Differ near far
      → let image = transform_vector4 numbers (orthographic f left right bottom top near far) in
        (image (array4 left bottom (neg near) one) ≡ array4 (neg one) (neg one) zero one)
        × (image (array4 right top (neg far) one) ≡ array4 one one one one)
  unfolding orthographic transform_vector4
  orthographic-corners left right bottom top near far h g h' g' d =
      let image =
        λ (v w : Array4 Expr). orthographic_at left right bottom top near far v w h g h' g' in
      (
        image (array4 (var 0) (var 2) (negated (var 4)) unit)
              (array4 (negated (ratio 1 0)) (negated (ratio 3 2)) nil unit) refl
            ∙ (λ i. array4 (neg (g i)) (neg (g' i)) zero one),
        image (array4 (var 1) (var 3) (negated (var 5)) unit)
              (array4 (ratio 1 0) (ratio 3 2) (ratio 4 5) unit) refl
            ∙ (λ i. array4 (g i) (g' i) (d i) one),
      )

  -- frustum(left, right, bottom, top, near, far) takes the corner (left, bottom) of the near plane to
  -- near times (-1, -1, 0, 1), the corner (right, top) to near times (1, 1, 0, 1), and a point of the far
  -- plane to one with z and w equal to far; orthographic of the same arguments takes the corner
  -- (left, bottom) of the near plane to (-1, -1, 0, 1) and the corner (right, top) of the far plane to
  -- (1, 1, 1, 1). This is so when the differences of opposite planes, taken both ways for left, right,
  -- bottom and top, have reciprocals and quotients are products by reciprocals.
  pub projections-corners :
      (left right bottom top near far x y : Number)
      → Differ left right
      → Differ right left
      → Differ bottom top
      → Differ top bottom
      → Differ near far
      → let image = transform_vector4 numbers (frustum f left right bottom top near far) in
        let straight = transform_vector4 numbers (orthographic f left right bottom top near far) in
        (image (array4 left bottom (neg near) one) ≡ array4 (neg near) (neg near) zero near)
        × (image (array4 right top (neg near) one) ≡ array4 near near zero near)
        × ((image (array4 x y (neg far) one)).at2 ≡ far)
        × ((image (array4 x y (neg far) one)).at3 ≡ far)
        × (straight (array4 left bottom (neg near) one) ≡ array4 (neg one) (neg one) zero one)
        × (straight (array4 right top (neg far) one) ≡ array4 one one one one)
  projections-corners left right bottom top near far x y h g h' g' d =
      let cone = frustum-corners left right bottom top near far x y g g' d in
      let box = orthographic-corners left right bottom top near far h g h' g' d in
      (cone.0, cone.1, cone.2, cone.3, box.0, box.1)
