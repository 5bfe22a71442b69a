-- ===== src/Ring/Integers.antt =====
-- Integers as numbers, with angles in quarter turns, to run the code of Math on.
use toolbox.Base.{ℕ, ◌-◌, ◌%◌, ◌≡◌, sym, ap, if◌then◌else◌, ◌==◌, arith}
use toolbox.Base.Int.{
  ℤ, pos, negsuc, ◌+ℤ◌, ◌-ℤ◌, ◌*ℤ◌, eqb_ℤ, eq_of_parts, int_laws, +ℤ_assoc, +ℤ_comm, *ℤ_assoc,
  *ℤ_comm, *ℤ-+ℤ,
}
use toolbox.Ring.{Numbers, IsRing, Reals, DivIsMul}

abbrev negated : ℤ → ℤ
negated a = pos 0 -ℤ a

abbrev pub integers : Numbers
integers = record {
  Number = ℤ;
  zero = pos 0;
  one = pos 1;
  add = ◌+ℤ◌;
  sub = ◌-ℤ◌;
  mul = ◌*ℤ◌;
  neg = negated;
}

one-mul_ℤ : (a : ℤ) → pos 1 *ℤ a ≡ a
unfolding ◌*ℤ◌
one-mul_ℤ a = ground arith

pub integers-IsRing : IsRing integers
integers-IsRing = record {
  add_assoc = +ℤ_assoc;
  add_comm = +ℤ_comm;
  zero-add = λ a. eq_of_parts _ _ (omega int_laws);
  add-neg = λ a. eq_of_parts _ _ (omega int_laws);
  sub_neg = λ a b. eq_of_parts _ _ (omega int_laws);
  mul_assoc = *ℤ_assoc;
  mul_comm = *ℤ_comm;
  one-mul = one-mul_ℤ;
  mul-add = *ℤ-+ℤ;
}

-- The integers with a reciprocal, 1 and -1.
abbrev reciprocal : ℤ → ℤ
reciprocal a = if eqb_ℤ a (pos 1) then pos 1 else if eqb_ℤ a (negsuc 0) then negsuc 0 else pos 0

abbrev pub quarter : ℤ → ℕ
quarter (pos k) = k % 4
quarter (negsuc k) = 3 - k % 4

abbrev pub quarter_sin : ℕ → ℤ
quarter_sin k = if k == 1 then pos 1 else if k == 3 then negsuc 0 else pos 0

abbrev pub quarter_cos : ℕ → ℤ
quarter_cos k = if k == 0 then pos 1 else if k == 2 then negsuc 0 else pos 0

abbrev pub turns : Reals
turns = record {
  numbers = integers;
  div = λ a b. a *ℤ reciprocal b;
  sqrt = λ a. a;
  sin = λ a. quarter_sin (quarter a);
  cos = λ a. quarter_cos (quarter a);
  tan = λ a. quarter_sin (quarter a) *ℤ reciprocal (quarter_cos (quarter a));
  pi = pos 2;
}

pub turns-DivIsMul : DivIsMul turns
turns-DivIsMul a b = ap (λ x. a *ℤ x) (sym (one-mul_ℤ (reciprocal b)))
