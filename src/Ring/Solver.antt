-- ===== src/Ring/Solver.antt =====
-- Expressions with the same polynomial have the same value in every ring.
use toolbox.Base.{
  ℕ, ◌≡◌, refl, sym, ap, ◌∙◌, true, [], ◌∷◌, ◌++◌, ltb, map, Bool-cases, inl, inr, arith,
}
use toolbox.Ring.{Numbers, IsRing}
use toolbox.Ring.Expressions.{
  Expr, var, nil, unit, plus, minus, times, negated, Monomial, Sum, insert_var, times_monomial,
  times_sum, normalise, before, insert_monomial, sort_sum, same_monomial, same_sum, same_expr,
}

module _ (n : Numbers) where
  open n use {Number, add, sub, mul, neg}

  abbrev pub eval : (ℕ → Number) → Expr → Number
  eval ρ (var x) = ρ x
  eval ρ nil = n.zero
  eval ρ unit = n.one
  eval ρ (plus a b) = add (eval ρ a) (eval ρ b)
  eval ρ (minus a b) = sub (eval ρ a) (eval ρ b)
  eval ρ (times a b) = mul (eval ρ a) (eval ρ b)
  eval ρ (negated a) = neg (eval ρ a)

  abbrev product : (ℕ → Number) → Monomial → Number
  product ρ [] = n.one
  product ρ (x ∷ m) = mul (ρ x) (product ρ m)

  abbrev total : (ℕ → Number) → Sum → Number
  total ρ [] = n.zero
  total ρ (m ∷ p) = add (product ρ m) (total ρ p)

module _ (n : Numbers) (r : IsRing n) where
  open n use {Number, add, sub, mul, neg}

  add-zero : (a : Number) → add a n.zero ≡ a
  add-zero a = r.add_comm a n.zero ∙ r.zero-add a

  mul-one : (a : Number) → mul a n.one ≡ a
  mul-one a = r.mul_comm a n.one ∙ r.one-mul a

  add_swap : (a b c : Number) → add a (add b c) ≡ add b (add a c)
  add_swap a b c = sym (r.add_assoc a b c) ∙ ap (λ x. add x c) (r.add_comm a b) ∙ r.add_assoc b a c

  mul_swap : (a b c : Number) → mul a (mul b c) ≡ mul b (mul a c)
  mul_swap a b c = sym (r.mul_assoc a b c) ∙ ap (λ x. mul x c) (r.mul_comm a b) ∙ r.mul_assoc b a c

  add_cross : (a b c d : Number) → add (add a b) (add c d) ≡ add (add a c) (add b d)
  add_cross a b c d =
      r.add_assoc a b (add c d) ∙ ap (add a) (add_swap b c d) ∙ sym (r.add_assoc a c (add b d))

  add_cancel : (a b c : Number) → add a c ≡ add b c → a ≡ b
  add_cancel a b c h =
      sym (add-zero a)
      ∙ ap (add a) (sym (r.add-neg c))
      ∙ sym (r.add_assoc a c (neg c))
      ∙ ap (λ x. add x (neg c)) h
      ∙ r.add_assoc b c (neg c)
      ∙ ap (add b) (r.add-neg c)
      ∙ add-zero b

  add-mul : (a b c : Number) → mul (add a b) c ≡ add (mul a c) (mul b c)
  add-mul a b c =
      r.mul_comm (add a b) c ∙ r.mul-add c a b ∙ (λ i. add (r.mul_comm c a i) (r.mul_comm c b i))

  mul-zero : (a : Number) → mul a n.zero ≡ n.zero
  mul-zero a = add_cancel (mul a n.zero) n.zero (mul a n.zero) (
      sym (r.mul-add a n.zero n.zero)
      ∙ ap (mul a) (r.zero-add n.zero)
      ∙ sym (r.zero-add (mul a n.zero)))

  zero-mul : (a : Number) → mul n.zero a ≡ n.zero
  zero-mul a = r.mul_comm n.zero a ∙ mul-zero a

  module _ (ρ : ℕ → Number) where
    product-insert_var :
        (x : ℕ) (m : Monomial) → product n ρ (insert_var x m) ≡ mul (ρ x) (product n ρ m)
    product-insert_var x [] = refl
    product-insert_var x (y ∷ m) = elim (Bool-cases (ltb y x)) [
      | inl t ↦
          rw t (ap (mul (ρ y)) (product-insert_var x m) ∙ mul_swap (ρ y) (ρ x) (product n ρ m))
      | inr f ↦ rw f refl
    ]

    product-times_monomial :
        (l m : Monomial) → product n ρ (times_monomial l m) ≡ mul (product n ρ l) (product n ρ m)
    product-times_monomial [] m = sym (r.one-mul (product n ρ m))
    product-times_monomial (x ∷ l) m =
        product-insert_var x (times_monomial l m)
        ∙ ap (mul (ρ x)) (product-times_monomial l m)
        ∙ sym (r.mul_assoc (ρ x) (product n ρ l) (product n ρ m))

    total-append : (p q : Sum) → total n ρ (p ++ q) ≡ add (total n ρ p) (total n ρ q)
    total-append [] q = sym (r.zero-add (total n ρ q))
    total-append (m ∷ p) q =
        ap (add (product n ρ m)) (total-append p q)
        ∙ sym (r.add_assoc (product n ρ m) (total n ρ p) (total n ρ q))

    total-map :
        (m : Monomial) (q : Sum)
        → total n ρ (map (times_monomial m) q) ≡ mul (product n ρ m) (total n ρ q)
    total-map m [] = sym (mul-zero (product n ρ m))
    total-map m (l ∷ q) =
        (λ i. add (product-times_monomial m l i) (total-map m q i))
        ∙ sym (r.mul-add (product n ρ m) (product n ρ l) (total n ρ q))

    total-times_sum : (p q : Sum) → total n ρ (times_sum p q) ≡ mul (total n ρ p) (total n ρ q)
    total-times_sum [] q = sym (zero-mul (total n ρ q))
    total-times_sum (m ∷ p) q =
        total-append (map (times_monomial m) q) (times_sum p q)
        ∙ (λ i. add (total-map m q i) (total-times_sum p q i))
        ∙ sym (add-mul (product n ρ m) (total n ρ p) (total n ρ q))

    total-insert_monomial :
        (m : Monomial) (p : Sum)
        → total n ρ (insert_monomial m p) ≡ add (product n ρ m) (total n ρ p)
    total-insert_monomial m [] = refl
    total-insert_monomial m (l ∷ p) = elim (Bool-cases (before m l)) [
      | inl t ↦ rw t refl
      | inr f ↦ rw f (
          ap (add (product n ρ l)) (total-insert_monomial m p)
          ∙ add_swap (product n ρ l) (product n ρ m) (total n ρ p))
    ]

    total-sort_sum : (p : Sum) → total n ρ (sort_sum p) ≡ total n ρ p
    total-sort_sum [] = refl
    total-sort_sum (m ∷ p) =
        total-insert_monomial m (sort_sum p) ∙ ap (add (product n ρ m)) (total-sort_sum p)

    abbrev Means : Expr → Sum × Sum → Type 0
    Means e (p, q) = add (eval n ρ e) (total n ρ q) ≡ total n ρ p

    Means-plus :
        (a b : Expr) (s t : Sum × Sum)
        → Means a s
        → Means b t
        → Means (plus a b) (s.0 ++ t.0, s.1 ++ t.1)
    Means-plus a b (p, q) (r', s) h g =
        ap (add (add (eval n ρ a) (eval n ρ b))) (total-append q s)
        ∙ add_cross (eval n ρ a) (eval n ρ b) (total n ρ q) (total n ρ s)
        ∙ (λ i. add (h i) (g i))
        ∙ sym (total-append p r')

    Means-negated : (a : Expr) (s : Sum × Sum) → Means a s → Means (negated a) (s.1, s.0)
    Means-negated a (p, q) h =
        ap (add (neg (eval n ρ a))) (sym h)
        ∙ sym (r.add_assoc (neg (eval n ρ a)) (eval n ρ a) (total n ρ q))
        ∙ ap (λ x. add x (total n ρ q))
            (r.add_comm (neg (eval n ρ a)) (eval n ρ a) ∙ r.add-neg (eval n ρ a))
        ∙ r.zero-add (total n ρ q)

    Means-minus :
        (a b : Expr) (s t : Sum × Sum)
        → Means a s
        → Means b t
        → Means (minus a b) (s.0 ++ t.1, s.1 ++ t.0)
    Means-minus a b s t h g =
        ap (λ x. add x (total n ρ (s.1 ++ t.0))) (r.sub_neg (eval n ρ a) (eval n ρ b))
        ∙ Means-plus a (negated b) s (t.1, t.0) h (Means-negated b t g)

    regroup : (x y z w : Number) → add (add (add x y) z) w ≡ add x (add (add y w) z)
    regroup x y z w =
        r.add_assoc (add x y) z w
        ∙ r.add_assoc x y (add z w)
        ∙ ap (λ u. add x (add y u)) (r.add_comm z w)
        ∙ ap (add x) (sym (r.add_assoc y w z))

    Means-times :
        (a b : Expr) (s t : Sum × Sum)
        → Means a s
        → Means b t
        → Means
            (times a b)
            (times_sum s.0 t.0 ++ times_sum s.1 t.1, times_sum s.0 t.1 ++ times_sum s.1 t.0)
    Means-times a b (p, q) (r', s) h g =
        let ea = eval n ρ a in
        let eb = eval n ρ b in
        let tp = total n ρ p in
        let tq = total n ρ q in
        let tr = total n ρ r' in
        let ts = total n ρ s in
        ap (add (mul ea eb)) (
          total-append (times_sum p s) (times_sum q r')
          ∙ (λ i. add (total-times_sum p s i) (total-times_sum q r' i))
          ∙ ap (λ x. add x (mul tq tr)) (ap (λ x. mul x ts) (sym h) ∙ add-mul ea tq ts))
        ∙ sym (regroup (mul ea eb) (mul ea ts) (mul tq tr) (mul tq ts))
        ∙ ap (λ x. add (add x (mul tq tr)) (mul tq ts)) (sym (r.mul-add ea eb ts) ∙ ap (mul ea) g)
        ∙ ap (λ x. add x (mul tq ts)) (sym (add-mul ea tq tr) ∙ ap (λ x. mul x tr) h)
        ∙ sym (
            total-append (times_sum p r') (times_sum q s)
            ∙ (λ i. add (total-times_sum p r' i) (total-times_sum q s i)))

    Means-normalise : (e : Expr) → Means e (normalise e)
    Means-normalise (var x) = ap (λ u. add u n.zero) (sym (mul-one (ρ x)))
    Means-normalise nil = r.zero-add n.zero
    Means-normalise unit = refl
    Means-normalise (plus a b) =
        Means-plus a b (normalise a) (normalise b) (Means-normalise a) (Means-normalise b)
    Means-normalise (minus a b) =
        Means-minus a b (normalise a) (normalise b) (Means-normalise a) (Means-normalise b)
    Means-normalise (times a b) =
        Means-times a b (normalise a) (normalise b) (Means-normalise a) (Means-normalise b)
    Means-normalise (negated a) = Means-negated a (normalise a) (Means-normalise a)

    eq_of_same_monomial : (l m : Monomial) → same_monomial l m ≡ true → l ≡ m
    eq_of_same_monomial [] [] h = refl
    eq_of_same_monomial [] (y ∷ m) h = cc
    eq_of_same_monomial (x ∷ l) [] h = cc
    eq_of_same_monomial (x ∷ l) (y ∷ m) h =
        let head : x ≡ y = ground arith in
        let tail : l ≡ m = eq_of_same_monomial l m (ground arith) in λ i. head i ∷ tail i

    eq_of_same_sum : (p q : Sum) → same_sum p q ≡ true → p ≡ q
    eq_of_same_sum [] [] h = refl
    eq_of_same_sum [] (m ∷ q) h = cc
    eq_of_same_sum (l ∷ p) [] h = cc
    eq_of_same_sum (l ∷ p) (m ∷ q) h =
        let head : l ≡ m = eq_of_same_monomial l m (ground arith) in
        let tail : p ≡ q = eq_of_same_sum p q (ground arith) in λ i. head i ∷ tail i

    -- `a - b` and the sums: a + q = p and b + s = r', with p + s and q + r' the same terms.
    balance : (a b p q r' s : Number) → add a q ≡ p → add b s ≡ r' → add p s ≡ add q r' → a ≡ b
    balance a b p q r' s h g e =
        add_cancel a b (add q s)
          (sym (r.add_assoc a q s) ∙ ap (λ x. add x s) h ∙ e ∙ ap (add q) (sym g) ∙ add_swap q b s)

    pub solve : (a b : Expr) → same_expr a b ≡ true → eval n ρ a ≡ eval n ρ b
    solve a b h =
        let (p, q) = normalise a in
        let (r', s) = normalise b in
        balance (eval n ρ a) (eval n ρ b) (total n ρ p) (total n ρ q) (total n ρ r') (total n ρ s)
          (Means-normalise a) (Means-normalise b)
          (sym (total-append p s)
            ∙ sym (total-sort_sum (p ++ s))
            ∙ ap (total n ρ) (eq_of_same_sum (sort_sum (p ++ s)) (sort_sum (q ++ r')) h)
            ∙ total-sort_sum (q ++ r')
            ∙ total-append q r')
