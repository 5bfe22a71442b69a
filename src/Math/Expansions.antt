-- ===== src/Math/Expansions.antt =====
-- The closed determinants and inverses of o3djs/math.js beside the cofactors of det and inverse.
use toolbox.Base.{
  ℕ, zero, suc, ◌+◌, ◌-◌, ◌<◌, ◌≤◌, ◌≡◌, refl, sym, ap, ◌∙◌, true, false, length, leb, Bool-cases,
  inl, inr, arith,
}
use toolbox.Ring.{Numbers, IsRing}
use toolbox.Ring.Expressions.{expressions, nil}
use toolbox.Ring.Solver.{solve}
use toolbox.Math.{
  Matrix2, Matrix3, Matrix4, map2, map3, map4, list2, list3, list4, entries2, entries3, entries4,
}
use toolbox.Math.Loops.{tabulate_without}
use toolbox.Math.Matrices.{Rows, entry}
use toolbox.Math.Symbolic.{variables22, variables33, variables44, values}
use toolbox.Math.Determinants.{det2, det3, det4}
use toolbox.Math.Cofactors.{expansion, det, det_within, closed_det, minor}

module _ (n : Numbers) (undefined : n.Number) where
  length-tabulate_without :
      {A : Type 0} (k x i : ℕ) (f : ℕ → A) → length (tabulate_without k x i f) ≡ k
  length-tabulate_without zero x i f = refl
  length-tabulate_without (suc k) x i f = ap suc (length-tabulate_without k x _ f)

  length-minor : (m : Rows n undefined) (x y : ℕ) → length (minor n undefined m x y) ≡ length m - 1
  unfolding minor
  length-minor m x y = length-tabulate_without (length m - 1) x 0 _

  expansion_same :
      (g h : Rows n undefined → n.Number) (m : Rows n undefined)
      → ((x : ℕ) → g (minor n undefined m 0 x) ≡ h (minor n undefined m 0 x))
      → (sign r : n.Number) (y left : ℕ)
      → expansion n undefined g m sign r y left ≡ expansion n undefined h m sign r y left
  unfolding expansion
  expansion_same g h m e sign r y zero = refl
  expansion_same g h m e sign r y (suc left) =
      expansion_same g h m e (n.mul sign (n.neg n.one))
        (n.add r (n.mul (n.mul sign (entry n undefined m 0 y)) (g (minor n undefined m 0 y))))
        (suc y) left
      ∙ ap
          (λ d.
            expansion n undefined h m (n.mul sign (n.neg n.one))
              (n.add r (n.mul (n.mul sign (entry n undefined m 0 y)) d)) (suc y) left)
          (e y)

  det_within-closed :
      (d : ℕ) (m : Rows n undefined)
      → leb (length m) 4 ≡ true
      → det_within n undefined d m ≡ closed_det n undefined m
  unfolding det_within
  det_within-closed zero m h = refl
  det_within-closed (suc d) m h = rw (det_within, h) refl

  -- One more level of expansions changes nothing once there are as many as rows above 4.
  det_within-suc :
      (d : ℕ) (m : Rows n undefined)
      → length m ≤ 4 + d
      → det_within n undefined (suc d) m ≡ det_within n undefined d m
  unfolding det_within
  det_within-suc zero m h = det_within-closed 1 m (ground arith)
  det_within-suc (suc d) m h = elim (Bool-cases (leb (length m) 4)) [
    | inl t ↦ det_within-closed (suc (suc d)) m t ∙ sym (det_within-closed (suc d) m t)
    | inr t ↦
        rw (det_within, t)
          (expansion_same (det_within n undefined (suc d)) (det_within n undefined d) m
            (λ y.
              let size = length-minor m 0 y in
              let short : length (minor n undefined m 0 y) ≤ 4 + d = omega arith in
              det_within-suc d (minor n undefined m 0 y) short)
            n.one n.zero 0 (length m))
  ]

  det_within-enough :
      (k d : ℕ) (m : Rows n undefined)
      → length m ≤ 4 + d
      → det_within n undefined (k + d) m ≡ det_within n undefined d m
  det_within-enough zero d m h = ap (λ x. det_within n undefined x m) (omega arith)
  det_within-enough (suc k) d m h =
      ap (λ x. det_within n undefined x m) (omega arith)
      ∙ det_within-suc (k + d) m (omega arith)
      ∙ det_within-enough k d m h

  det_within-same :
      (d e : ℕ) (m : Rows n undefined)
      → length m ≤ 4 + d
      → d ≤ e
      → det_within n undefined e m ≡ det_within n undefined d m
  det_within-same d e m h g =
      ap (λ x. det_within n undefined x m) (omega arith) ∙ det_within-enough (e - d) d m h

  -- `det` with more than four rows is its loop: the sum over the first row of the entries, with
  -- alternating signs, times the determinants (again by `det`) of the minors. The depth of
  -- expansions that stands for the recursion, the number of rows, is enough: any greater depth has
  -- the same result.
  det-expansion :
      (m : Rows n undefined)
      → 4 < length m
      → (det n undefined m ≡ expansion n undefined (det n undefined) m n.one n.zero 0 (length m))
        × ((k : ℕ) → det_within n undefined (k + length m) m ≡ det n undefined m)
  unfolding det det_within
  det-expansion m h =
      let long : leb (length m) 4 ≡ false = ground arith in
      let rows : length m ≡ suc (length m - 1) = omega arith in
      (
        ap (λ x. det_within n undefined x m) rows
            ∙ rw (det_within, long)
                (expansion_same (det_within n undefined (length m - 1)) (det n undefined) m
                  (λ y.
                    ap (λ x. det_within n undefined x (minor n undefined m 0 y))
                      (sym (length-minor m 0 y)))
                  n.one n.zero 0 (length m)),
        λ k. det_within-same (length m) (k + length m) m (omega arith) (omega arith),
      )

module _ (n : Numbers) (undefined : n.Number) where
  -- det's loop over the first row.
  abbrev pub first_row : Rows n undefined → n.Number
  first_row m = expansion n undefined (det n undefined) m n.one n.zero 0 (length m)

module _ (n : Numbers) (r : IsRing n) (undefined : n.Number) where
  -- For matrices of 2, 3 and 4 rows, where `det` calls the closed forms det2, det3 and det4, its
  -- loop over the first row and the minors would give the same determinant.
  expansion-closed :
      (a : Matrix2 n.Number) (b : Matrix3 n.Number) (c : Matrix4 n.Number)
      → (first_row n undefined (list2 (map2 list2 a)) ≡ det2 n a)
        × (first_row n undefined (list3 (map3 list3 b)) ≡ det3 n b)
        × (first_row n undefined (list4 (map4 list4 c)) ≡ det4 n c)
  unfolding expansion det det_within closed_det minor det2 det3 det4
  expansion-closed a b c =
      let x = variables22 0 in
      let y = variables33 0 in
      let z = variables44 0 in
      (
        solve n r (values n (entries2 a)) (first_row expressions nil (list2 (map2 list2 x)))
            (det2 expressions x) refl,
        solve n r (values n (entries3 b)) (first_row expressions nil (list3 (map3 list3 y)))
            (det3 expressions y) refl,
        solve n r (values n (entries4 c)) (first_row expressions nil (list4 (map4 list4 z)))
            (det4 expressions z) refl,
      )

  -- `det` is the expansion by the first row at every size above one row. With more than four rows it
  -- is its loop: the sum over the first row of the entries, with alternating signs, times the
  -- determinants (again by `det`) of the minors; the number of rows as the depth of its recursion is
  -- enough, since any greater depth has the same result. For 2, 3 and 4 rows, where it calls the
  -- closed forms det2, det3 and det4, that loop would give the same determinant.
  pub det-first_row :
      (m : Rows n undefined) (a : Matrix2 n.Number) (b : Matrix3 n.Number) (c : Matrix4 n.Number)
      → 4 < length m
      → (det n undefined m ≡ first_row n undefined m)
        × ((k : ℕ) → det_within n undefined (k + length m) m ≡ det n undefined m)
        × (first_row n undefined (list2 (map2 list2 a)) ≡ det2 n a)
        × (first_row n undefined (list3 (map3 list3 b)) ≡ det3 n b)
        × (first_row n undefined (list4 (map4 list4 c)) ≡ det4 n c)
  det-first_row m a b c h =
      let long = det-expansion n undefined m h in
      let short = expansion-closed a b c in (long.0, long.1, short.0, short.1, short.2)
