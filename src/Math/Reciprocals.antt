-- ===== src/Math/Reciprocals.antt =====
-- The inverses of o3djs/math.js multiplied with their matrices.
use toolbox.Base.{◌≡◌, refl, ap, ◌∙◌, ◌++◌, ◌∷◌, []}
use toolbox.Ring.{Numbers, IsRing, Reals}
use toolbox.Ring.Expressions.{Expr, expressions, var, nil, times}
use toolbox.Ring.Solver.{solve, eval}
use toolbox.Math.{Matrix2, Matrix3, Matrix4, entries2, entries3, entries4, array2, array3, array4}
use toolbox.Math.Symbolic.{
  variables22, variables33, variables44, solve22, solve33, solve44, symbolic, values,
}
use toolbox.Math.RowMajor.{mul_matrix_matrix2, mul_matrix_matrix3, mul_matrix_matrix4}
use toolbox.Math.Inverses.{inverse2, inverse3, inverse4}
use toolbox.Math.Determinants.{det2, det3, det4}
use toolbox.Math.Motions.{identity}

-- `x` in the first entry `1 / x * t` of an inverse.
abbrev denominator : Expr → Expr
denominator (times (times a x) t) = x
denominator e = nil

module _ (n : Numbers) where
  abbrev diagonal2 : n.Number → Matrix2 n.Number
  diagonal2 d = array2 (array2 d n.zero) (array2 n.zero d)

  abbrev diagonal3 : n.Number → Matrix3 n.Number
  diagonal3 d = array3 (array3 d n.zero n.zero) (array3 n.zero d n.zero) (array3 n.zero n.zero d)

  abbrev diagonal4 : n.Number → Matrix4 n.Number
  diagonal4 d =
      array4 (array4 d n.zero n.zero n.zero) (array4 n.zero d n.zero n.zero)
        (array4 n.zero n.zero d n.zero) (array4 n.zero n.zero n.zero d)

module _ (f : Reals) (r : IsRing f.numbers) where
  open f use {numbers}
  open numbers use {Number, mul, one}

  -- A number whose reciprocal in the code is one.
  abbrev pub IsInvertible : Number → Type 0
  IsInvertible d = mul (f.div one d) d ≡ one

  IsInvertible-same : (e d : Number) → e ≡ d → IsInvertible d → mul (f.div one e) d ≡ one
  IsInvertible-same e d h g = ap (λ x. mul (f.div one x) d) h ∙ g

  -- The inverse that inverse4 computes is one on both sides, for the product mulMatrixMatrix4 and
  -- the matrix that matrix4.identity makes, when `1 / det4(m)` is a reciprocal of `det4(m)`.
  pub inverse4-mul :
      (m : Matrix4 Number)
      → IsInvertible (det4 numbers m)
      → (mul_matrix_matrix4 numbers (inverse4 f m) m ≡ identity numbers)
        × (mul_matrix_matrix4 numbers m (inverse4 f m) ≡ identity numbers)
  unfolding inverse4 det4 mul_matrix_matrix4 identity
  inverse4-mul m h =
      let x = variables44 0 in
      let inv = inverse4 (symbolic (λ a b. var 16)) x in
      let e = denominator (inverse4 (symbolic times) x).at0.at0 in
      let e_det = solve numbers r (values numbers (entries4 m)) e (det4 expressions x) refl in
      let d_one = IsInvertible-same _ (det4 numbers m) e_det h in
      let l = entries4 m ++ f.div one (eval numbers (values numbers (entries4 m)) e) ∷ [] in
      let diagonal = diagonal4 expressions (times (var 16) (det4 expressions x)) in
      let finish = ap (diagonal4 numbers) d_one in
      (
        solve44 numbers r l (mul_matrix_matrix4 expressions inv x) diagonal refl ∙ finish,
        solve44 numbers r l (mul_matrix_matrix4 expressions x inv) diagonal refl ∙ finish,
      )

  -- The inverse that inverse3 computes is one on both sides, for the product mulMatrixMatrix3, when
  -- `1 / det3(m)` is a reciprocal of `det3(m)`.
  inverse3-mul :
      (m : Matrix3 Number)
      → IsInvertible (det3 numbers m)
      → (mul_matrix_matrix3 numbers (inverse3 f m) m ≡ diagonal3 numbers one)
        × (mul_matrix_matrix3 numbers m (inverse3 f m) ≡ diagonal3 numbers one)
  unfolding inverse3 det3 mul_matrix_matrix3
  inverse3-mul m h =
      let x = variables33 0 in
      let inv = inverse3 (symbolic (λ a b. var 9)) x in
      let e = denominator (inverse3 (symbolic times) x).at0.at0 in
      let e_det = solve numbers r (values numbers (entries3 m)) e (det3 expressions x) refl in
      let d_one = IsInvertible-same _ (det3 numbers m) e_det h in
      let l = entries3 m ++ f.div one (eval numbers (values numbers (entries3 m)) e) ∷ [] in
      let diagonal = diagonal3 expressions (times (var 9) (det3 expressions x)) in
      let finish = ap (diagonal3 numbers) d_one in
      (
        solve33 numbers r l (mul_matrix_matrix3 expressions inv x) diagonal refl ∙ finish,
        solve33 numbers r l (mul_matrix_matrix3 expressions x inv) diagonal refl ∙ finish,
      )

  -- The inverse that inverse2 computes is one on both sides, for the product mulMatrixMatrix2, when
  -- `1 / det2(m)` is a reciprocal of `det2(m)`.
  inverse2-mul :
      (m : Matrix2 Number)
      → IsInvertible (det2 numbers m)
      → (mul_matrix_matrix2 numbers (inverse2 f m) m ≡ diagonal2 numbers one)
        × (mul_matrix_matrix2 numbers m (inverse2 f m) ≡ diagonal2 numbers one)
  unfolding inverse2 det2 mul_matrix_matrix2
  inverse2-mul m h =
      let x = variables22 0 in
      let inv = inverse2 (symbolic (λ a b. var 4)) x in
      let e = denominator (inverse2 (symbolic times) x).at0.at0 in
      let e_det = solve numbers r (values numbers (entries2 m)) e (det2 expressions x) refl in
      let d_one = IsInvertible-same _ (det2 numbers m) e_det h in
      let l = entries2 m ++ f.div one (eval numbers (values numbers (entries2 m)) e) ∷ [] in
      let diagonal = diagonal2 expressions (times (var 4) (det2 expressions x)) in
      let finish = ap (diagonal2 numbers) d_one in
      (
        solve22 numbers r l (mul_matrix_matrix2 expressions inv x) diagonal refl ∙ finish,
        solve22 numbers r l (mul_matrix_matrix2 expressions x inv) diagonal refl ∙ finish,
      )
