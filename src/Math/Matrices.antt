-- ===== src/Math/Matrices.antt =====
-- The matrices of any size of o3djs/math.js, arrays of arrays: entrywise operations, products of
-- both orders, transpose, trace; `undefined` is what a read outside an array gives.
use toolbox.Base.{ℕ, List, [], length, if◌then◌else◌, ◌==◌}
use toolbox.Ring.{Numbers}
use toolbox.Math.Loops.{tabulate, read, accumulate}

module _ (n : Numbers) (undefined : n.Number) where
  open n use {Number, zero as zero_number, one, add as ◌⊞◌, sub as ◌⊟◌, mul as ◌⊠◌, neg}

  infixl 65 ◌⊞◌ ◌⊟◌
  infixl 70 ◌⊠◌
  abbrev pub Rows : Type 0
  Rows = List (List Number)

  abbrev pub line : Rows → ℕ → List Number
  line = read []

  abbrev pub entry : Rows → ℕ → ℕ → Number
  entry m i j = read undefined (line m i) j

  unfoldable pub add_matrix : Rows → Rows → Rows
  add_matrix a b =
      tabulate (length a) (λ i. tabulate (length (line a 0)) (λ j. entry a i j ⊞ entry b i j))

  unfoldable pub sub_matrix : Rows → Rows → Rows
  sub_matrix a b =
      tabulate (length a) (λ i. tabulate (length (line a 0)) (λ j. entry a i j ⊟ entry b i j))

  unfoldable pub lerp_matrix : Rows → Rows → Number → Rows
  lerp_matrix a b t =
      tabulate (length a)
        (λ i. tabulate (length (line a 0)) (λ j. (one ⊟ t) ⊠ entry a i j ⊞ t ⊠ entry b i j))

  unfoldable pub negative_matrix : Rows → Rows
  negative_matrix m =
      tabulate (length m) (λ i. tabulate (length (line m 0)) (λ j. neg (entry m i j)))

  unfoldable pub copy_matrix : Rows → Rows
  copy_matrix m = tabulate (length m) (λ i. tabulate (length (line m i)) (entry m i))

  unfoldable pub mul_scalar_matrix : Number → Rows → Rows
  mul_scalar_matrix k m =
      tabulate (length m) (λ i. tabulate (length (line m 0)) (λ j. k ⊠ entry m i j))

  unfoldable pub mul_matrix_scalar : Rows → Number → Rows
  mul_matrix_scalar m k = mul_scalar_matrix k m

  unfoldable pub row_major_mul_vector_matrix : List Number → Rows → List Number
  row_major_mul_vector_matrix v m =
      tabulate (length (line m 0))
        (λ i. accumulate n zero_number (length v) (λ j. read undefined v j ⊠ entry m j i))

  unfoldable pub column_major_mul_vector_matrix : List Number → Rows → List Number
  column_major_mul_vector_matrix v m =
      tabulate (length m)
        (λ i. accumulate n zero_number (length v) (λ j. read undefined v j ⊠ entry m i j))

  unfoldable pub row_major_mul_matrix_vector : Rows → List Number → List Number
  row_major_mul_matrix_vector m v =
      tabulate (length m)
        (λ i. accumulate n zero_number (length (line m 0)) (λ j. entry m i j ⊠ read undefined v j))

  unfoldable pub column_major_mul_matrix_vector : Rows → List Number → List Number
  column_major_mul_matrix_vector m v =
      tabulate (length (line m 0))
        (λ i. accumulate n zero_number (length v) (λ j. read undefined v j ⊠ entry m j i))

  unfoldable pub row_major_mul_matrix_matrix : Rows → Rows → Rows
  row_major_mul_matrix_matrix a b = tabulate (length a) (λ i.
      tabulate (length (line b 0))
        (λ j. accumulate n zero_number (length b) (λ k. entry a i k ⊠ entry b k j)))

  unfoldable pub column_major_mul_matrix_matrix : Rows → Rows → Rows
  column_major_mul_matrix_matrix a b = tabulate (length b) (λ i.
      tabulate (length (line a 0))
        (λ j. accumulate n zero_number (length a) (λ k. entry b i k ⊠ entry a k j)))

  unfoldable pub row_major_column : Rows → ℕ → List Number
  row_major_column m j = tabulate (length m) (λ i. entry m i j)

  unfoldable pub column_major_row : Rows → ℕ → List Number
  column_major_row m i = tabulate (length m) (λ j. entry m j i)

  unfoldable pub identity_of_size : ℕ → Rows
  identity_of_size size =
      tabulate size (λ j. tabulate size (λ i. if i == j then one else zero_number))

  unfoldable pub transpose : Rows → Rows
  transpose m = tabulate (length (line m 0)) (λ j. tabulate (length m) (λ i. entry m i j))

  unfoldable pub trace : Rows → Number
  trace m = accumulate n zero_number (length m) (λ i. entry m i i)
