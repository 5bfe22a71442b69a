-- ===== src/Ring/Residues.antt =====
-- The numbers modulo 7, with their division and square roots, to run the code of Math on.
use toolbox.Base.{
  ℕ, ◌+◌, ◌-◌, ◌*◌, ◌%◌, ◌^◌, ◌≡◌, refl, sym, ap, ◌∙◌, Bool, true, ◌&&◌, if◌then◌else◌, ◌==◌, arith,
}
use toolbox.Ring.{Numbers, IsRing, Reals, DivIsMul}

pub data Residue : Type 0 where
  r0 r1 r2 r3 r4 r5 r6 : Residue

abbrev pub digit : Residue → ℕ
digit r0 = 0
digit r1 = 1
digit r2 = 2
digit r3 = 3
digit r4 = 4
digit r5 = 5
digit r6 = 6

abbrev pub residue : ℕ → Residue
residue k =
    if k % 7 == 0
    then r0
    else if k % 7 == 1
    then r1
    else if k % 7 == 2
    then r2
    else if k % 7 == 3
    then r3
    else if k % 7 == 4
    then r4
    else if k % 7 == 5
    then r5
    else r6

abbrev pub residues : Numbers
residues = record {
  Number = Residue;
  zero = r0;
  one = r1;
  add = λ a b. residue (digit a + digit b);
  sub = λ a b. residue (digit a + (7 - digit b));
  mul = λ a b. residue (digit a * digit b);
  neg = λ a. residue (7 - digit a);
}

abbrev same : Residue → Residue → Bool
same a b = digit a == digit b

abbrev every : (Residue → Bool) → Bool
every p = p r0 && p r1 && p r2 && p r3 && p r4 && p r5 && p r6

every_at : (p : Residue → Bool) → every p ≡ true → (a : Residue) → p a ≡ true
every_at p h r0 = ground arith
every_at p h r1 = ground arith
every_at p h r2 = ground arith
every_at p h r3 = ground arith
every_at p h r4 = ground arith
every_at p h r5 = ground arith
every_at p h r6 = ground arith

residue-digit : (a : Residue) → residue (digit a) ≡ a
residue-digit r0 = refl
residue-digit r1 = refl
residue-digit r2 = refl
residue-digit r3 = refl
residue-digit r4 = refl
residue-digit r5 = refl
residue-digit r6 = refl

eq_of_same : (a b : Residue) → same a b ≡ true → a ≡ b
eq_of_same a b h =
    let digits : digit a ≡ digit b = ground arith in
    sym (residue-digit a) ∙ ap residue digits ∙ residue-digit b

-- Laws in one, two and three variables, tried on all residues.
law1 : (p q : Residue → Residue) → every (λ a. same (p a) (q a)) ≡ true → (a : Residue) → p a ≡ q a
law1 p q h a = eq_of_same (p a) (q a) (every_at (λ a. same (p a) (q a)) h a)

law2 :
    (p q : Residue → Residue → Residue)
    → every (λ a. every (λ b. same (p a b) (q a b))) ≡ true
    → (a b : Residue) → p a b ≡ q a b
law2 p q h a = law1 (p a) (q a) (every_at (λ a. every (λ b. same (p a b) (q a b))) h a)

law3 :
    (p q : Residue → Residue → Residue → Residue)
    → every (λ a. every (λ b. every (λ c. same (p a b c) (q a b c)))) ≡ true
    → (a b c : Residue) → p a b c ≡ q a b c
law3 p q h a =
    law2 (p a) (q a) (every_at (λ a. every (λ b. every (λ c. same (p a b c) (q a b c)))) h a)

pub residues-IsRing : IsRing residues
residues-IsRing =
    let add = residues.add in
    let mul = residues.mul in
    record {
      add_assoc = law3 (λ a b c. add (add a b) c) (λ a b c. add a (add b c)) refl;
      add_comm = law2 (λ a b. add a b) (λ a b. add b a) refl;
      zero-add = law1 (λ a. add r0 a) (λ a. a) refl;
      add-neg = law1 (λ a. add a (residues.neg a)) (λ a. r0) refl;
      sub_neg = law2 (λ a b. residues.sub a b) (λ a b. add a (residues.neg b)) refl;
      mul_assoc = law3 (λ a b c. mul (mul a b) c) (λ a b c. mul a (mul b c)) refl;
      mul_comm = law2 (λ a b. mul a b) (λ a b. mul b a) refl;
      one-mul = law1 (λ a. mul r1 a) (λ a. a) refl;
      mul-add = law3 (λ a b c. mul a (add b c)) (λ a b c. add (mul a b) (mul a c)) refl;
    }

-- The reciprocal of a residue other than zero is its fifth power; of 1, 2 and 4 the roots are 1, 4
-- and 2; angles are quarter turns.
abbrev root : Residue → Residue
root r1 = r1
root r2 = r4
root r4 = r2
root a = r0

abbrev quarter_sin : Residue → Residue
quarter_sin a = if digit a % 4 == 1 then r1 else if digit a % 4 == 3 then r6 else r0

abbrev quarter_cos : Residue → Residue
quarter_cos a = if digit a % 4 == 0 then r1 else if digit a % 4 == 2 then r6 else r0

abbrev pub modular : Reals
modular = record {
  numbers = residues;
  div = λ a b. residue (digit a * digit b ^ 5);
  sqrt = root;
  sin = quarter_sin;
  cos = quarter_cos;
  tan = λ a. residue (digit (quarter_sin a) * digit (quarter_cos a) ^ 5);
  pi = r2;
}

pub modular-DivIsMul : DivIsMul modular
modular-DivIsMul = law2 modular.div (λ a b. residues.mul a (modular.div r1 b)) refl
