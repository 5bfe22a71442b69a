-- ===== src/Buffer/Tests.antt =====
-- A buffer of bytes: runs, and the theorems at it.
use toolbox.Base.{
  ℕ, zero, suc, ◌+◌, ◌*◌, ◌%◌, ◌≡◌, ◌<◌, ◌≢◌, refl, sym, arith, All, Option, none, some, List, [],
  ◌∷◌, get_elem?,
}
use native.Mathlib.Nat.{mod-mod}
use toolbox.Buffer.{
  TypedArray, Field, Buffer, create_field, get_at, set_at, sum_components, float_field, value_at,
}
use toolbox.Buffer.Fields.{Valid, get_at-set_at}
use toolbox.Buffer.Created.{Extended, create_field-Extended}
use toolbox.Buffer.Cells.{Stored}
use toolbox.Buffer.Loops.{collect}
use mathlib.Core.Option.{some-injective}

abbrev or_zero : Option ℕ → ℕ
or_zero none = 0
or_zero (some n) = n % 65536

convert_twice_or_zero : (v : Option ℕ) → or_zero (some (or_zero v)) ≡ or_zero v
convert_twice_or_zero none = refl
convert_twice_or_zero (some n) = mod-mod n 65536

-- What a `Uint16Array` stores.
abbrev u_int16 : TypedArray
u_int16 = record {
  Value = ℕ;
  filler = 0;
  convert = or_zero;
  convert_filler = refl;
  convert_twice = convert_twice_or_zero;
}

abbrev first_field : Field
first_field = record { id = 1; num_components = 2; offset = 0; size = 8 }

abbrev second_field : Field
second_field = record { id = 2; num_components = 1; offset = 2; size = 1 }

abbrev two_elements : Buffer ℕ
two_elements = record {
  fields = first_field ∷ second_field ∷ [];
  array = some (10 ∷ 11 ∷ 12 ∷ 20 ∷ 21 ∷ 22 ∷ []);
  total_components = 3;
}

small-Stored : (a : List ℕ) → All (λ n. n % 65536 ≡ n) a → Stored u_int16 a
small-Stored [] h p v e = cc
small-Stored (n ∷ ns) h zero v e = rw (sym (some-injective n v e)) h.0
small-Stored (n ∷ ns) h (suc p) v e = small-Stored ns h.1 p v e

two_elements-Valid : Valid u_int16 two_elements
unfolding sum_components
two_elements-Valid = record {
  laid = (refl, (refl, tt));
  total = refl;
  stored =
      small-Stored (10 ∷ 11 ∷ 12 ∷ 20 ∷ 21 ∷ 22 ∷ [])
        (refl, (refl, (refl, (refl, (refl, (refl, tt))))));
}

get_at-two_elements :
    get_at u_int16 two_elements first_field 0 2 ≡ some 10 ∷ some 11 ∷ some 20 ∷ some 21 ∷ []
unfolding get_at collect
get_at-two_elements = refl

create_field-Extended_example :
    (b' : Buffer ℕ) × (create_field u_int16 3 float_field 2 two_elements ≡ some b')
    × Extended u_int16 two_elements 2 2 b'
create_field-Extended_example =
    create_field-Extended u_int16 two_elements (10 ∷ 11 ∷ 12 ∷ 20 ∷ 21 ∷ 22 ∷ []) 2 3 float_field 2
      two_elements-Valid refl refl (omega arith) (omega arith)

get_at-set_at_example :
    ((i c : ℕ)
      → i < 1
      → c < 2
      → get_elem?
          (get_at u_int16
            (set_at u_int16 two_elements first_field 1 (some 7 ∷ some 8 ∷ []))
            first_field
            1
            1)
          (2 * i + c)
        ≡ some (some (or_zero (value_at u_int16 (some 7 ∷ some 8 ∷ []) (2 * i + c)))))
    × ((j : ℕ) (g : Field) (from m : ℕ)
        → j ≢ 0
        → get_elem? two_elements.fields j ≡ some g
        → get_at u_int16 (set_at u_int16 two_elements first_field 1 (some 7 ∷ some 8 ∷ [])) g from m
          ≡ get_at u_int16 two_elements g from m)
get_at-set_at_example =
    get_at-set_at u_int16 two_elements (10 ∷ 11 ∷ 12 ∷ 20 ∷ 21 ∷ 22 ∷ []) 0 first_field 1 1
      (some 7 ∷ some 8 ∷ []) two_elements-Valid refl refl (omega arith) refl (omega arith)
