-- ===== src/Math/Eye.antt =====
-- lookAt of o3djs/math.js: where the view matrix takes the eye and the target.
use toolbox.Base.{◌≡◌, refl, sym, ap, ◌∙◌, ◌++◌, ◌∷◌, []}
use toolbox.Ring.{IsRing, Reals, DivIsMul}
use toolbox.Ring.Expressions.{Expr, expressions, var, nil, unit, minus, times, negated}
use toolbox.Math.{Array3, Array4, Matrix4, array4, list4, list3, entries4}
use toolbox.Math.Symbolic.{variables3, variables4, variables44, solve4}
use toolbox.Math.RowMajor.{mul_matrix_matrix4}
use toolbox.Math.Determinants.{det4}
use toolbox.Math.Inverses.{inverse4}
use toolbox.Math.Motions.{identity}
use toolbox.Math.Points.{transform_vector4}
use toolbox.Math.Views.{camera, look_at, concat, sub_vector, normalize}
use toolbox.Math.Reciprocals.{IsInvertible, inverse4-mul}

module _ (f : Reals) (r : IsRing f.numbers) where
  open f use {numbers, sqrt}
  open numbers use {Number, one, zero, add, sub, mul, neg}

  -- The rows of a matrix under its inverse.
  transform_vector4-inverse4 :
      (m : Matrix4 Number)
      → IsInvertible f r (det4 numbers m)
      → (transform_vector4 numbers (inverse4 f m) m.at2 ≡ array4 zero zero one zero)
        × (transform_vector4 numbers (inverse4 f m) m.at3 ≡ array4 zero zero zero one)
  unfolding transform_vector4 mul_matrix_matrix4 identity
  transform_vector4-inverse4 m h =
      let product = (inverse4-mul f r m h).1 in (ap (λ p. p.at2) product, ap (λ p. p.at3) product)

  -- v - u * k.
  abbrev less : Array4 Number → Array4 Number → Number → Array4 Number
  less v u k =
      array4 (sub v.at0 (mul u.at0 k)) (sub v.at1 (mul u.at1 k)) (sub v.at2 (mul u.at2 k))
        (sub v.at3 (mul u.at3 k))

  transform_vector4-less :
      (m : Matrix4 Number) (v u : Array4 Number) (k : Number)
      → transform_vector4 numbers m (less v u k)
        ≡ less (transform_vector4 numbers m v) (transform_vector4 numbers m u) k
  unfolding transform_vector4
  transform_vector4-less m v u k =
      let x = variables44 0 in
      let a = variables4 16 in
      let b = variables4 20 in
      let minus_by = λ (c d : Array4 Expr).
        array4 (minus c.at0 (times d.at0 (var 24))) (minus c.at1 (times d.at1 (var 24)))
          (minus c.at2 (times d.at2 (var 24))) (minus c.at3 (times d.at3 (var 24))) in
      let image = transform_vector4 expressions x in
      solve4 numbers r (entries4 m ++ list4 v ++ list4 u ++ k ∷ []) (image (minus_by a b))
        (minus_by (image a) (image b)) refl

  -- The length of the vector from the target to the eye, as normalize takes it.
  abbrev pub gap : Array3 Number → Array3 Number → Number
  gap eye target =
      let s = sub_vector f eye target in
      sqrt (add (add (add zero (mul s.at0 s.at0)) (mul s.at1 s.at1)) (mul s.at2 s.at2))

module _ (f : Reals) (r : IsRing f.numbers) (law : DivIsMul f) where
  open f use {numbers}
  open numbers use {Number, one, zero, sub, mul, neg}

  quotient-mul : (x k : Number) → mul (f.div one k) k ≡ one → mul (f.div x k) k ≡ x
  quotient-mul x k h =
      ap (λ y. mul y k) (law x k)
      ∙ r.mul_assoc x (f.div one k) k
      ∙ ap (mul x) h
      ∙ r.mul_comm x one
      ∙ r.one-mul x

  -- The view matrix of lookAt sends the eye to the origin and the target to the point of the
  -- negative z axis at the distance of the two, when the determinant of the camera's matrix and
  -- that distance have reciprocals and quotients are products by reciprocals.
  pub look_at-target :
      (eye target up : Array3 Number)
      → IsInvertible f r (det4 numbers (camera f eye target up))
      → mul (f.div one (gap f r eye target)) (gap f r eye target) ≡ one
      → (transform_vector4 numbers (look_at f eye target up) (concat f eye one)
          ≡ array4 zero zero zero one)
        × (transform_vector4 numbers (look_at f eye target up) (concat f target one)
            ≡ array4 zero zero (neg (gap f r eye target)) one)
  unfolding look_at normalize sub_vector
  look_at-target eye target up h g =
      let m = camera f eye target up in
      let n = gap f r eye target in
      let rows = transform_vector4-inverse4 f r m h in
      let s = sub_vector f eye target in
      let u = variables3 0 in
      let v = variables3 3 in
      let l = list3 eye ++ list3 target ++ n ∷ [] in
      let difference = λ (a b : Expr). minus a (minus a b) in
      let back : array4 (sub eye.at0 s.at0) (sub eye.at1 s.at1) (sub eye.at2 s.at2)
            (sub one (mul zero n))
          ≡ concat f target one =
        solve4 numbers r l
          (array4 (difference u.at0 v.at0) (difference u.at1 v.at1) (difference u.at2 v.at2)
            (minus unit (times nil (var 6))))
          (array4 v.at0 v.at1 v.at2 unit) refl in
      let line : less f r (m.at3) (m.at2) n ≡ concat f target one =
        (λ i.
          array4 (sub eye.at0 (quotient-mul s.at0 n g i)) (sub eye.at1 (quotient-mul s.at1 n g i))
            (sub eye.at2 (quotient-mul s.at2 n g i)) (sub one (mul zero n)))
        ∙ back in
      (
        rows.1,
        ap (transform_vector4 numbers (inverse4 f m)) (sym line)
            ∙ transform_vector4-less f r (inverse4 f m) m.at3 m.at2 n
            ∙ (λ i. less f r (rows.1 i) (rows.0 i) n)
            ∙ solve4 numbers r l
                (array4 (minus nil (times nil (var 6))) (minus nil (times nil (var 6)))
                  (minus nil (times unit (var 6))) (minus unit (times nil (var 6))))
                (array4 nil nil (negated (var 6)) unit) refl,
      )
