-- ===== src/Math/Cofactors.antt =====
-- codet, det and inverse of o3djs/math.js: cofactors for a matrix of any size, closed forms up to 4.
use toolbox.Base.{
  ℕ, zero, suc, ◌+◌, ◌-◌, ◌%◌, true, false, [], ◌∷◌, length, if◌then◌else◌, ◌==◌, leb,
}
use toolbox.Ring.{Numbers, Reals}
use toolbox.Math.{
  Matrix2, Matrix3, Matrix4, array2, array3, array4, map2, map3, map4, list2, list3, list4,
}
use toolbox.Math.Loops.{tabulate, tabulate_without}
use toolbox.Math.Matrices.{Rows, line, entry}
use toolbox.Math.Determinants.{det2, det3, det4}
use toolbox.Math.Inverses.{inverse2, inverse3, inverse4}

module _ (n : Numbers) (undefined : n.Number) where
  open n use {Number}

  -- The entries that a closed form reads.
  abbrev pub square2 : Rows n undefined → Matrix2 Number
  square2 m = map2 (λ i. map2 (entry n undefined m i) (array2 0 1)) (array2 0 1)

  abbrev pub square3 : Rows n undefined → Matrix3 Number
  square3 m = map3 (λ i. map3 (entry n undefined m i) (array3 0 1 2)) (array3 0 1 2)

  abbrev pub square4 : Rows n undefined → Matrix4 Number
  square4 m = map4 (λ i. map4 (entry n undefined m i) (array4 0 1 2 3)) (array4 0 1 2 3)

  -- The minor that codet builds: row x and column y stepped over.
  unfoldable pub minor : Rows n undefined → ℕ → ℕ → Rows n undefined
  minor a x y =
      let size = length a in
      tabulate_without (size - 1) x 0
        (λ ai. tabulate_without (size - 1) y 0 (entry n undefined a ai))

  -- det1 to det4, by the number of rows; there is no det0.
  unfoldable pub closed_det : Rows n undefined → Number
  closed_det m =
      if length m == 1
      then entry n undefined m 0 0
      else if length m == 2
      then det2 n (square2 m)
      else if length m == 3
      then det3 n (square3 m)
      else if length m == 4
      then det4 n (square4 m)
      else undefined

  -- The sum of det's loop, given the determinant of a minor; `sign` changes at each column.
  unfoldable pub expansion :
      (Rows n undefined → Number)
      → (m : Rows n undefined) (sign r : Number) (y : ℕ) (left : ℕ) → Number
  expansion minor_det m sign r y zero = r
  expansion minor_det m sign r y (suc left) =
      expansion minor_det m (n.mul sign (n.neg n.one))
        (n.add r (n.mul (n.mul sign (entry n undefined m 0 y)) (minor_det (minor m 0 y)))) (suc y)
        left

  -- det, with at most `depth` expansions below one another.
  unfoldable pub det_within : ℕ → Rows n undefined → Number
  det_within zero m = closed_det m
  det_within (suc depth) m = elim (leb (length m) 4) [
    | true ↦ closed_det m
    | false ↦ expansion (det_within depth) m n.one n.zero 0 (length m)
  ]

  -- A minor has a row less, so as many expansions as rows are enough.
  unfoldable pub det : Rows n undefined → Number
  det m = det_within (length m) m

  unfoldable pub codet : Rows n undefined → ℕ → ℕ → Number
  codet a x y = det (minor a x y)

module _ (f : Reals) (undefined : f.numbers.Number) where
  open f use {numbers}
  open numbers use {Number}

  unfoldable pub div_matrix_scalar : Rows numbers undefined → Number → Rows numbers undefined
  div_matrix_scalar m k = tabulate (length m) (λ i.
      tabulate (length (line numbers undefined m 0)) (λ j. f.div (entry numbers undefined m i j) k))

  abbrev pub cofactor_sign : ℕ → Number
  cofactor_sign k = if k % 2 == 0 then numbers.one else numbers.neg numbers.one

  -- The matrix of signed cofactors, transposed.
  unfoldable pub adjugate : Rows numbers undefined → Rows numbers undefined
  adjugate m =
      let size = length m in
      tabulate size (λ j.
        tabulate size (λ i. numbers.mul (cofactor_sign (i + j)) (codet numbers undefined m i j)))

  -- inverse1 to inverse4, by the number of rows.
  unfoldable pub closed_inverse : Rows numbers undefined → Rows numbers undefined
  closed_inverse m =
      if length m == 1
      then (f.div numbers.one (entry numbers undefined m 0 0) ∷ []) ∷ []
      else if length m == 2
      then list2 (map2 list2 (inverse2 f (square2 numbers undefined m)))
      else if length m == 3
      then list3 (map3 list3 (inverse3 f (square3 numbers undefined m)))
      else list4 (map4 list4 (inverse4 f (square4 numbers undefined m)))

  unfoldable pub inverse : Rows numbers undefined → Rows numbers undefined
  inverse m =
      if leb (length m) 4
      then closed_inverse m
      else div_matrix_scalar (adjugate m) (det numbers undefined m)
