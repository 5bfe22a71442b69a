-- ===== src/Buffer/Saved.antt =====
-- What the loop of `createField` of o3d-webgl/buffer.js has put back after some rounds.
use toolbox.Base.{
  ℕ, zero, suc, ◌*◌, ◌≤◌, ◌<◌, ◌≡◌, refl, sym, ap, ◌∙◌, Option, none, some, List, [], ◌∷◌, arith,
  length, get_elem?, get_elem?-lt, replicate, length-replicate, map,
}
use mathlib.Core.Option.{some-injective}
use toolbox.Buffer.{TypedArray, Field, Buffer, value_at, set_elements, set_at}
use toolbox.Buffer.Cells.{Stored}
use toolbox.Buffer.Fields.{cell}

pub get_elem?-replicate {ℓ} :
    {A : Type ℓ} (n i : ℕ) (x : A) → i < n → get_elem? (replicate n x) i ≡ some x
get_elem?-replicate zero i x h = absurd (omega arith)
get_elem?-replicate (suc n) zero x h = refl
get_elem?-replicate (suc n) (suc i) x h = get_elem?-replicate n i x (omega arith)

pub get_elem?-map {ℓ κ} :
    {A : Type ℓ} {B : Type κ} (f : A → B) (xs : List A) (i : ℕ) (x : A)
    → get_elem? xs i ≡ some x
    → get_elem? (map f xs) i ≡ some (f x)
get_elem?-map f [] i x e = cc
get_elem?-map f (y ∷ ys) zero x e = ap (λ z. some (f z)) (some-injective y x e)
get_elem?-map f (y ∷ ys) (suc i) x e = get_elem?-map f ys i x e

pub get_elem?-beyond {ℓ} :
    {A : Type ℓ} (xs : List A) (i : ℕ) → length xs ≤ i → get_elem? xs i ≡ none
get_elem?-beyond [] i h = refl
get_elem?-beyond (x ∷ xs) zero h = absurd (omega arith)
get_elem?-beyond (x ∷ xs) (suc i) h = get_elem?-beyond xs i (omega arith)

module _ (t : TypedArray) where
  open t use {Value, filler, convert, convert_filler}

  pub replicate-Stored : (n : ℕ) → Stored t (replicate n filler)
  replicate-Stored n p v e =
      let in_range : p < n =
        omega (arith, get_elem?-lt (replicate n filler) p v e, length-replicate n filler) in
      let same : filler ≡ v =
        some-injective filler v (sym (get_elem?-replicate n p filler in_range) ∙ e) in
      rw (sym same) convert_filler

  pub value_at-some :
      (values : List (Option Value)) (i : ℕ) (o : Option Value)
      → get_elem? values i ≡ some o
      → value_at t values i ≡ o
  value_at-some values i o e = rw (value_at, e) refl

  pub set_at-array :
      (b : Buffer Value) (a : List Value) (f : Field) (start : ℕ) (values : List (Option Value))
      → b.array ≡ some a
      → set_at t b f start values
        ≡ record b { array = some (set_elements t b.total_components f start values a) }
  unfolding set_at
  set_at-array b a f start values e = rw e refl

  module _ (b c : Buffer Value) (m : ℕ) where
    -- After `k` rounds the first `k` fields of `b` have their data in `c`, and the others of `c` are
    -- as they were filled.
    pub record Restored (k : ℕ) (d : Buffer Value) : Type 0 where
      pub same_fields : d.fields ≡ c.fields
      pub same_total : d.total_components ≡ c.total_components
      pub memory : List Value
      pub in_memory : d.array ≡ some memory
      pub size : length memory ≡ m * c.total_components
      pub stored : Stored t memory
      pub back :
          (j : ℕ) (f : Field)
          → j < k
          → get_elem? b.fields j ≡ some f
          → (i x : ℕ) → i < m
          → x < f.num_components
          → cell t d f i x ≡ cell t b f i x
      pub fresh :
          (j : ℕ) (f : Field)
          → k ≤ j
          → get_elem? c.fields j ≡ some f
          → (i x : ℕ) → i < m
          → x < f.num_components
          → cell t d f i x ≡ some filler
