-- ===== src/Quaternions/RoundTrip/Cases.antt =====
-- The four cases of rotationToQuaternion of o3djs/quaternions.js on a matrix of quaternionToRotation.
use toolbox.Base.{◌≡◌, refl, sym, ap, ◌∙◌, ◌++◌, ◌∷◌, [], Bool, true, false, ◌&&◌, if◌then◌else◌}
use toolbox.Ring.{IsRing, Reals, DivIsMul}
use toolbox.Ring.Expressions.{Expr, expressions, var, nil, unit, plus, minus, times, same_expr}
use toolbox.Ring.Solver.{solve, eval}
use toolbox.Math.{Array4, Matrix3, array4, list4, map3, map4}
use toolbox.Math.Points.{get_upper3x3}
use toolbox.Math.Symbolic.{variables4, all4, solve4, solve33, symbolic, values}
use toolbox.Quaternions.{length_squared, quaternion_to_rotation}
use toolbox.Quaternions.Conversion.{from_trace, from_biggest, two}
use toolbox.Quaternions.Turning.{by_reciprocal-same, divisor}

-- The reciprocals of the code: of two, a sum, and of the root.
abbrev reciprocal : Expr → Expr
reciprocal (plus a b) = var 5
reciprocal e = var 6

-- The code run with a given expression for its root.
abbrev with_root : Expr → Reals
with_root root = record {
  numbers = expressions;
  div = λ a b. times a (reciprocal b);
  sqrt = λ e. root;
  sin = λ e. nil;
  cos = λ e. nil;
  tan = λ e. nil;
  pi = nil;
}

abbrev two_expr : Expr
two_expr = plus unit unit

-- The rotation of a quaternion of length one, without its quotients.
abbrev pub turned : Matrix3 Expr
turned = get_upper3x3 expressions (quaternion_to_rotation (symbolic (λ a b. a)) (variables4 0))

abbrev weighted_by : Array4 Expr → Array4 Expr
weighted_by e =
    array4 (times (var 0) e.at0) (times (var 1) e.at1) (times (var 2) e.at2) (times (var 3) e.at3)

-- What the half and the reciprocal of the root make of `c`, and of the other components.
abbrev own : Expr
own = times (var 5) two_expr

abbrev other : Expr → Expr
other c = times own (times (var 6) (times two_expr c))

module _ (f : Reals) where
  open f use {numbers, sqrt}
  open numbers use {Number, one, zero, add, mul}

  -- The component that rotationToQuaternion finds as half a root.
  abbrev pub component :
      (greater : Number → Number → Bool) → Matrix3 Number → Array4 Number → Number
  component greater m q =
      let m00 = m.at0.at0 in
      let m11 = m.at1.at1 in
      let m22 = m.at2.at2 in
      if greater (add (add m00 m11) m22) zero
      then q.at3
      else if greater m00 m11 && greater m00 m22
      then q.at0
      else if greater m11 m00 && greater m11 m22
      then q.at1
      else q.at2

  -- `c` is a root: half of a root that is a number with a reciprocal.
  abbrev pub IsRoot : Number → Type 0
  IsRoot c =
      (sqrt (mul (mul (two f) c) (mul (two f) c)) ≡ mul (two f) c)
      × (mul (f.div one (mul (two f) c)) (mul (two f) c) ≡ one)

module _ (f : Reals) (r : IsRing f.numbers) (law : DivIsMul f) where
  open f use {numbers, sqrt}
  open numbers use {Number, one, zero, add, mul}

  abbrev pub rotation : Array4 Number → Matrix3 Number
  rotation q = get_upper3x3 numbers (quaternion_to_rotation f q)

  module _ (q : Array4 Number) (h : length_squared numbers q ≡ one) where
    abbrev pub value : Expr → Number
    value = eval numbers (values numbers (list4 q))

    pub rotation-turned : mul (f.div one one) one ≡ one → rotation q ≡ map3 (map3 value) turned
    unfolding quaternion_to_rotation get_upper3x3 length_squared
    rotation-turned g =
        let x = variables4 0 in
        let by = λ (k : Expr).
          get_upper3x3 expressions (quaternion_to_rotation (symbolic (λ u v. times u k)) x) in
        let norm = divisor (quaternion_to_rotation (symbolic times) x).at0.at0 in
        let norm_one : value norm ≡ one =
          solve numbers r (values numbers (list4 q)) norm (length_squared expressions x) refl ∙ h in
        let l = λ (k : Number). list4 q ++ k ∷ [] in
        let one_one : f.div one one ≡ one = sym (r.one-mul _) ∙ r.mul_comm one _ ∙ g in
        (λ i. get_upper3x3 numbers (quaternion_to_rotation (by_reciprocal-same f law i) q))
        ∙ ap (λ k. map3 (map3 (eval numbers (values numbers (l k)))) (by (var 4)))
            (ap (f.div one) norm_one ∙ one_one)
        ∙ solve33 numbers r (list4 q) (by unit) turned refl

    weighted :
        (p s t u : Number)
        → p ≡ one
        → s ≡ one
        → t ≡ one
        → u ≡ one
        → array4 (mul q.at0 p) (mul q.at1 s) (mul q.at2 t) (mul q.at3 u) ≡ q
    weighted p s t u hp hs ht hu =
        (λ i. array4 (mul q.at0 (hp i)) (mul q.at1 (hs i)) (mul q.at2 (ht i)) (mul q.at3 (hu i)))
        ∙ solve4 numbers r (list4 q) (map4 (λ e. times e unit) (variables4 0)) (variables4 0) refl

    -- A radicand with the length of the quaternion for one.
    root :
        (c e : Expr) (rest : Number → Number)
        → value e ≡ rest (length_squared numbers q)
        → mul (value (times two_expr c)) (value (times two_expr c)) ≡ value e
        → sqrt (mul (value (times two_expr c)) (value (times two_expr c)))
          ≡ value (times two_expr c)
        → sqrt (rest one) ≡ value (times two_expr c)
    root c e rest s t g = ap (λ o. sqrt (rest o)) (sym h) ∙ ap sqrt (sym s ∙ sym t) ∙ g

    -- The components, a root, and the reciprocals of two and of the root.
    abbrev with_values : Number → Expr → Number
    with_values root =
        eval numbers (values numbers (list4 q ++ root ∷ f.div one (two f) ∷ f.div one root ∷ []))

    -- Code with a root (the variable 4) that is twice the component `c` and with weights of one.
    rebuilt :
        (c : Expr) (root : Number) (code code_c weights : Array4 Expr)
        → root ≡ value (times two_expr c)
        → map4 (with_values (value (times two_expr c))) code
          ≡ map4 (with_values (value (times two_expr c))) code_c
        → all4 same_expr code_c (weighted_by weights) ≡ true
        → map4 (with_values (value (times two_expr c))) weights ≡ array4 one one one one
        → map4 (with_values root) code ≡ q
    rebuilt c root code code_c weights e s t u =
        ap (λ x. map4 (with_values x) code) e
        ∙ s
        ∙ solve4 numbers r
            (list4 q
              ++ value (times two_expr c)
                ∷ f.div one (two f)
                ∷ f.div one (value (times two_expr c))
                ∷ [])
            code_c (weighted_by weights) t
        ∙ weighted (with_values (value (times two_expr c)) weights.at0)
            (with_values (value (times two_expr c)) weights.at1)
            (with_values (value (times two_expr c)) weights.at2)
            (with_values (value (times two_expr c)) weights.at3) (ap (λ a. a.at0) u)
            (ap (λ a. a.at1) u) (ap (λ a. a.at2) u) (ap (λ a. a.at3) u)

    module _ (two_ok : mul (f.div one (two f)) (two f) ≡ one) where
      product_one : (p s : Number) → p ≡ one → s ≡ one → mul p s ≡ one
      product_one p s hp hs = (λ i. mul (hp i) (hs i)) ∙ r.one-mul one

      from_trace_trace : IsRoot f q.at3 → from_trace f (map3 (map3 value) turned) ≡ q
      unfolding from_trace quaternion_to_rotation get_upper3x3 length_squared
      from_trace_trace (root_ok, ok) =
          let c = var 3 in
          let norm = length_squared expressions (variables4 0) in
          let radicand = plus norm (plus (plus turned.at0.at0 turned.at1.at1) turned.at2.at2) in
          let square = times (times two_expr c) (times two_expr c) in
          let rest = λ (o : Number).
            add o
              (add (add (value turned.at0.at0) (value turned.at1.at1)) (value turned.at2.at2)) in
          let root_c =
            root c radicand rest refl
              (solve numbers r (values numbers (list4 q)) square radicand refl) root_ok in
          let both = product_one _ _ two_ok ok in
          (λ i. from_trace (by_reciprocal-same f law i) (map3 (map3 value) turned))
          ∙ rebuilt c (sqrt (rest one)) (from_trace (with_root (var 4)) turned)
              (from_trace (with_root (times two_expr c)) turned)
              (array4 (other (var 3)) (other (var 3)) (other (var 3)) own) root_c refl refl
              (λ i. array4 (both i) (both i) (both i) (two_ok i))

      from_biggest_x : IsRoot f q.at0 → from_biggest f 0 1 2 (map3 (map3 value) turned) ≡ q
      unfolding from_biggest quaternion_to_rotation get_upper3x3 length_squared
      from_biggest_x (root_ok, ok) =
          let c = var 0 in
          let norm = length_squared expressions (variables4 0) in
          let radicand = minus (minus (plus norm turned.at0.at0) turned.at1.at1) turned.at2.at2 in
          let square = times (times two_expr c) (times two_expr c) in
          let rest = λ (o : Number).
            numbers.sub (numbers.sub (add o (value turned.at0.at0)) (value turned.at1.at1))
              (value turned.at2.at2) in
          let root_c =
            root c radicand rest refl
              (solve numbers r (values numbers (list4 q)) square radicand refl) root_ok in
          let both = product_one _ _ two_ok ok in
          (λ i. from_biggest (by_reciprocal-same f law i) 0 1 2 (map3 (map3 value) turned))
          ∙ rebuilt c (sqrt (rest one)) (from_biggest (with_root (var 4)) 0 1 2 turned)
              (from_biggest (with_root (times two_expr c)) 0 1 2 turned)
              (array4 own (other (var 0)) (other (var 0)) (other (var 0))) root_c refl refl
              (λ i. array4 (two_ok i) (both i) (both i) (both i))

      from_biggest_y : IsRoot f q.at1 → from_biggest f 1 2 0 (map3 (map3 value) turned) ≡ q
      unfolding from_biggest quaternion_to_rotation get_upper3x3 length_squared
      from_biggest_y (root_ok, ok) =
          let c = var 1 in
          let norm = length_squared expressions (variables4 0) in
          let radicand = minus (minus (plus norm turned.at1.at1) turned.at2.at2) turned.at0.at0 in
          let square = times (times two_expr c) (times two_expr c) in
          let rest = λ (o : Number).
            numbers.sub (numbers.sub (add o (value turned.at1.at1)) (value turned.at2.at2))
              (value turned.at0.at0) in
          let root_c =
            root c radicand rest refl
              (solve numbers r (values numbers (list4 q)) square radicand refl) root_ok in
          let both = product_one _ _ two_ok ok in
          (λ i. from_biggest (by_reciprocal-same f law i) 1 2 0 (map3 (map3 value) turned))
          ∙ rebuilt c (sqrt (rest one)) (from_biggest (with_root (var 4)) 1 2 0 turned)
              (from_biggest (with_root (times two_expr c)) 1 2 0 turned)
              (array4 (other (var 1)) own (other (var 1)) (other (var 1))) root_c refl refl
              (λ i. array4 (both i) (two_ok i) (both i) (both i))

      from_biggest_z : IsRoot f q.at2 → from_biggest f 2 0 1 (map3 (map3 value) turned) ≡ q
      unfolding from_biggest quaternion_to_rotation get_upper3x3 length_squared
      from_biggest_z (root_ok, ok) =
          let c = var 2 in
          let norm = length_squared expressions (variables4 0) in
          let radicand = minus (minus (plus norm turned.at2.at2) turned.at0.at0) turned.at1.at1 in
          let square = times (times two_expr c) (times two_expr c) in
          let rest = λ (o : Number).
            numbers.sub (numbers.sub (add o (value turned.at2.at2)) (value turned.at0.at0))
              (value turned.at1.at1) in
          let root_c =
            root c radicand rest refl
              (solve numbers r (values numbers (list4 q)) square radicand refl) root_ok in
          let both = product_one _ _ two_ok ok in
          (λ i. from_biggest (by_reciprocal-same f law i) 2 0 1 (map3 (map3 value) turned))
          ∙ rebuilt c (sqrt (rest one)) (from_biggest (with_root (var 4)) 2 0 1 turned)
              (from_biggest (with_root (times two_expr c)) 2 0 1 turned)
              (array4 (other (var 2)) (other (var 2)) own (other (var 2))) root_c refl refl
              (λ i. array4 (both i) (both i) (two_ok i) (both i))

      -- By the tests that the code makes: of the trace, of the first entry, of the second.
      pub chosen :
          (t s u : Bool)
          → IsRoot f (if t then q.at3 else if s then q.at0 else if u then q.at1 else q.at2)
          → (if t
              then from_trace f (map3 (map3 value) turned)
              else if s
              then from_biggest f 0 1 2 (map3 (map3 value) turned)
              else if u
              then from_biggest f 1 2 0 (map3 (map3 value) turned)
              else from_biggest f 2 0 1 (map3 (map3 value) turned))
            ≡ q
      chosen true s u root_ok = from_trace_trace root_ok
      chosen false true u root_ok = from_biggest_x root_ok
      chosen false false true root_ok = from_biggest_y root_ok
      chosen false false false root_ok = from_biggest_z root_ok
