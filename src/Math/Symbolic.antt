-- ===== src/Math/Symbolic.antt =====
-- The code of Math run on formal expressions, and equations between matrices of expressions.
use toolbox.Base.{ℕ, zero, suc, ◌+◌, ◌≡◌, Bool, true, ◌&&◌, List, [], ◌∷◌, arith}
use toolbox.Ring.{Numbers, IsRing, Reals}
use toolbox.Ring.Expressions.{Expr, var, nil, expressions, same_expr}
use toolbox.Ring.Solver.{eval, solve}
use toolbox.Math.{
  Array2, Array3, Array4, Matrix2, Matrix3, Matrix4, array2, array3, array4, map2, map3, map4,
}

-- Angles are variables: an angle's sine and cosine are the variables four and eight further on.
abbrev pub shifted : ℕ → Expr → Expr
shifted k (var x) = var (x + k)
shifted k e = nil

abbrev pub symbolic : (Expr → Expr → Expr) → Reals
symbolic quotient = record {
  numbers = expressions;
  div = quotient;
  sqrt = λ e. nil;
  sin = shifted 4;
  cos = shifted 8;
  tan = λ e. nil;
  pi = nil;
}

abbrev pub variables2 : ℕ → Array2 Expr
variables2 k = array2 (var k) (var (1 + k))

abbrev pub variables3 : ℕ → Array3 Expr
variables3 k = array3 (var k) (var (1 + k)) (var (2 + k))

abbrev pub variables4 : ℕ → Array4 Expr
variables4 k = array4 (var k) (var (1 + k)) (var (2 + k)) (var (3 + k))

abbrev pub variables22 : ℕ → Matrix2 Expr
variables22 k = array2 (variables2 k) (variables2 (2 + k))

abbrev pub variables33 : ℕ → Matrix3 Expr
variables33 k = array3 (variables3 k) (variables3 (3 + k)) (variables3 (6 + k))

abbrev pub variables44 : ℕ → Matrix4 Expr
variables44 k =
    array4 (variables4 k) (variables4 (4 + k)) (variables4 (8 + k)) (variables4 (12 + k))

abbrev pub all2 : {A : Type 0} → (A → A → Bool) → Array2 A → Array2 A → Bool
all2 t a b = t a.at0 b.at0 && t a.at1 b.at1

abbrev pub all3 : {A : Type 0} → (A → A → Bool) → Array3 A → Array3 A → Bool
all3 t a b = t a.at0 b.at0 && t a.at1 b.at1 && t a.at2 b.at2

abbrev pub all4 : {A : Type 0} → (A → A → Bool) → Array4 A → Array4 A → Bool
all4 t a b = t a.at0 b.at0 && t a.at1 b.at1 && t a.at2 b.at2 && t a.at3 b.at3

eq_of_all2 :
    {A B : Type 0} (t : A → A → Bool) (f : A → B)
    → ((a b : A) → t a b ≡ true → f a ≡ f b)
    → (a b : Array2 A) → all2 t a b ≡ true
    → map2 f a ≡ map2 f b
eq_of_all2 t f g a b h =
    let h0 = g a.at0 b.at0 (ground arith) in
    let h1 = g a.at1 b.at1 (ground arith) in λ i. array2 (h0 i) (h1 i)

eq_of_all3 :
    {A B : Type 0} (t : A → A → Bool) (f : A → B)
    → ((a b : A) → t a b ≡ true → f a ≡ f b)
    → (a b : Array3 A) → all3 t a b ≡ true
    → map3 f a ≡ map3 f b
eq_of_all3 t f g a b h =
    let h0 = g a.at0 b.at0 (ground arith) in
    let h1 = g a.at1 b.at1 (ground arith) in
    let h2 = g a.at2 b.at2 (ground arith) in λ i. array3 (h0 i) (h1 i) (h2 i)

eq_of_all4 :
    {A B : Type 0} (t : A → A → Bool) (f : A → B)
    → ((a b : A) → t a b ≡ true → f a ≡ f b)
    → (a b : Array4 A) → all4 t a b ≡ true
    → map4 f a ≡ map4 f b
eq_of_all4 t f g a b h =
    let h0 = g a.at0 b.at0 (ground arith) in
    let h1 = g a.at1 b.at1 (ground arith) in
    let h2 = g a.at2 b.at2 (ground arith) in
    let h3 = g a.at3 b.at3 (ground arith) in λ i. array4 (h0 i) (h1 i) (h2 i) (h3 i)

module _ (n : Numbers) where
  -- The value of each variable.
  abbrev pub values : List n.Number → ℕ → n.Number
  values [] k = n.zero
  values (x ∷ l) zero = x
  values (x ∷ l) (suc k) = values l k

module _ (n : Numbers) (r : IsRing n) (l : List n.Number) where
  pub solve3 :
      (a b : Array3 Expr)
      → all3 same_expr a b ≡ true
      → map3 (eval n (values n l)) a ≡ map3 (eval n (values n l)) b
  solve3 = eq_of_all3 same_expr (eval n (values n l)) (solve n r (values n l))

  pub solve4 :
      (a b : Array4 Expr)
      → all4 same_expr a b ≡ true
      → map4 (eval n (values n l)) a ≡ map4 (eval n (values n l)) b
  solve4 = eq_of_all4 same_expr (eval n (values n l)) (solve n r (values n l))

  pub solve22 :
      (a b : Matrix2 Expr)
      → all2 (all2 same_expr) a b ≡ true
      → map2 (map2 (eval n (values n l))) a ≡ map2 (map2 (eval n (values n l))) b
  solve22 =
      eq_of_all2 (all2 same_expr) (map2 (eval n (values n l)))
        (eq_of_all2 same_expr (eval n (values n l)) (solve n r (values n l)))

  pub solve33 :
      (a b : Matrix3 Expr)
      → all3 (all3 same_expr) a b ≡ true
      → map3 (map3 (eval n (values n l))) a ≡ map3 (map3 (eval n (values n l))) b
  solve33 = eq_of_all3 (all3 same_expr) (map3 (eval n (values n l))) solve3

  pub solve44 :
      (a b : Matrix4 Expr)
      → all4 (all4 same_expr) a b ≡ true
      → map4 (map4 (eval n (values n l))) a ≡ map4 (map4 (eval n (values n l))) b
  solve44 = eq_of_all4 (all4 same_expr) (map4 (eval n (values n l))) solve4
