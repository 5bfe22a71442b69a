-- ===== src/Ring/Expressions.antt =====
-- Formal sums and products, themselves numbers: the code is run on them to find its polynomials.
use toolbox.Base.{ℕ, Bool, true, false, ◌&&◌, List, [], ◌∷◌, ◌++◌, if◌then◌else◌, ltb, ◌==◌, map}
use toolbox.Ring.{Numbers}

pub data Expr : Type 0 where
  var : ℕ → Expr
  nil unit : Expr
  plus minus times : Expr → Expr → Expr
  negated : Expr → Expr

abbrev pub expressions : Numbers
expressions = record {
  Number = Expr;
  zero = nil;
  one = unit;
  add = plus;
  sub = minus;
  mul = times;
  neg = negated;
}

-- A product of variables, sorted, and a sum of products.
abbrev pub Monomial : Type 0
Monomial = List ℕ

abbrev pub Sum : Type 0
Sum = List Monomial

abbrev pub insert_var : ℕ → Monomial → Monomial
insert_var x [] = x ∷ []
insert_var x (y ∷ m) = if ltb y x then y ∷ insert_var x m else x ∷ y ∷ m

abbrev pub times_monomial : Monomial → Monomial → Monomial
times_monomial [] m = m
times_monomial (x ∷ l) m = insert_var x (times_monomial l m)

abbrev pub times_sum : Sum → Sum → Sum
times_sum [] q = []
times_sum (m ∷ p) q = map (times_monomial m) q ++ times_sum p q

-- The terms to add and the terms to take away.
abbrev pub normalise : Expr → Sum × Sum
normalise (var x) = ((x ∷ []) ∷ [], [])
normalise nil = ([], [])
normalise unit = ([] ∷ [], [])
normalise (plus a b) = let (p, q) = normalise a in let (r, s) = normalise b in (p ++ r, q ++ s)
normalise (minus a b) = let (p, q) = normalise a in let (r, s) = normalise b in (p ++ s, q ++ r)
normalise (times a b) =
    let (p, q) = normalise a in
    let (r, s) = normalise b in (times_sum p r ++ times_sum q s, times_sum p s ++ times_sum q r)
normalise (negated a) = let (p, q) = normalise a in (q, p)

abbrev pub before : Monomial → Monomial → Bool
before [] m = true
before (x ∷ l) [] = false
before (x ∷ l) (y ∷ m) = if x == y then before l m else ltb x y

abbrev pub insert_monomial : Monomial → Sum → Sum
insert_monomial m [] = m ∷ []
insert_monomial m (l ∷ p) = if before m l then m ∷ l ∷ p else l ∷ insert_monomial m p

abbrev pub sort_sum : Sum → Sum
sort_sum [] = []
sort_sum (m ∷ p) = insert_monomial m (sort_sum p)

abbrev pub same_monomial : Monomial → Monomial → Bool
same_monomial [] [] = true
same_monomial [] (y ∷ m) = false
same_monomial (x ∷ l) [] = false
same_monomial (x ∷ l) (y ∷ m) = (x == y) && same_monomial l m

abbrev pub same_sum : Sum → Sum → Bool
same_sum [] [] = true
same_sum [] (m ∷ q) = false
same_sum (l ∷ p) [] = false
same_sum (l ∷ p) (m ∷ q) = same_monomial l m && same_sum p q

-- Two expressions with the same polynomial.
abbrev pub same_expr : Expr → Expr → Bool
same_expr a b =
    let (p, q) = normalise a in
    let (r, s) = normalise b in same_sum (sort_sum (p ++ s)) (sort_sum (q ++ r))
