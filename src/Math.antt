-- ===== src/Math.antt =====
-- The arrays of two, three and four numbers of o3djs/math.js, and the matrices made of them.
pub mod RowMajor
pub mod ColumnMajor
pub mod Determinants
pub mod Inverses
pub mod Views
pub mod Turns
pub mod Rotations
pub mod Motions
pub mod Points
pub mod Compose
pub mod Loops
pub mod Vectors
pub mod Matrices
pub mod Cofactors
pub mod Symbolic
mod Tests
pub mod Corners
pub mod Eye
pub mod Orthogonal
pub mod InPlace
pub mod Products
pub mod Reciprocals
pub mod Expansions
use toolbox.Base.{ℕ, ◌+◌, List, [], ◌∷◌, ◌++◌}

pub record Array2 (A : Type 0) : Type 0 where
  pub at0 : A
  pub at1 : A

pub record Array3 (A : Type 0) : Type 0 where
  pub at0 : A
  pub at1 : A
  pub at2 : A

pub record Array4 (A : Type 0) : Type 0 where
  pub at0 : A
  pub at1 : A
  pub at2 : A
  pub at3 : A

-- An array of rows; the row at index i, then the entry at index j.
abbrev pub Matrix2 : Type 0 → Type 0
Matrix2 A = Array2 (Array2 A)

abbrev pub Matrix3 : Type 0 → Type 0
Matrix3 A = Array3 (Array3 A)

abbrev pub Matrix4 : Type 0 → Type 0
Matrix4 A = Array4 (Array4 A)

abbrev pub array2 : {A : Type 0} → A → A → Array2 A
array2 a b = record { at0 = a; at1 = b }

abbrev pub array3 : {A : Type 0} → A → A → A → Array3 A
array3 a b c = record { at0 = a; at1 = b; at2 = c }

abbrev pub array4 : {A : Type 0} → A → A → A → A → Array4 A
array4 a b c d = record { at0 = a; at1 = b; at2 = c; at3 = d }

abbrev pub map2 : {A B : Type 0} → (A → B) → Array2 A → Array2 B
map2 f v = array2 (f v.at0) (f v.at1)

abbrev pub map3 : {A B : Type 0} → (A → B) → Array3 A → Array3 B
map3 f v = array3 (f v.at0) (f v.at1) (f v.at2)

abbrev pub map4 : {A B : Type 0} → (A → B) → Array4 A → Array4 B
map4 f v = array4 (f v.at0) (f v.at1) (f v.at2) (f v.at3)

abbrev pub list2 : {A : Type 0} → Array2 A → List A
list2 v = v.at0 ∷ v.at1 ∷ []

abbrev pub list3 : {A : Type 0} → Array3 A → List A
list3 v = v.at0 ∷ v.at1 ∷ v.at2 ∷ []

abbrev pub list4 : {A : Type 0} → Array4 A → List A
list4 v = v.at0 ∷ v.at1 ∷ v.at2 ∷ v.at3 ∷ []

abbrev pub entries2 : {A : Type 0} → Matrix2 A → List A
entries2 m = list2 m.at0 ++ list2 m.at1

abbrev pub entries3 : {A : Type 0} → Matrix3 A → List A
entries3 m = list3 m.at0 ++ list3 m.at1 ++ list3 m.at2

abbrev pub entries4 : {A : Type 0} → Matrix4 A → List A
entries4 m = list4 m.at0 ++ list4 m.at1 ++ list4 m.at2 ++ list4 m.at3
