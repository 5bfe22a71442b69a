-- ===== src/Buffer/Cells.antt =====
-- The cells that `setAt` of o3d-webgl/field.js writes and `getAt` reads.
use toolbox.Base.{
  ℕ, zero, suc, ◌+◌, ◌*◌, ◌≤◌, ◌<◌, ◌≡◌, ◌≢◌, refl, sym, ap, ◌∙◌, Option, some, List, arith, length,
  get_elem?, set, ◌==◌, Bool-cases, inl, inr, get_elem?-lt, length-set, get_elem?-set_self,
  get_elem?-set_ne,
}
use toolbox.Buffer.{TypedArray, Field, rounds, value_at, set_elements}
use toolbox.Buffer.Loops.{for_up, for_up-invariant, write, length-write, write-other, write-at}
use toolbox.Buffer.Layout.{place-injective}
use mathlib.Core.Option.{some-injective}

-- The index in the array of a component of an element.
abbrev pub place : ℕ → Field → ℕ → ℕ → ℕ
place total f i c = i * total + f.offset + c

-- A component that a field may have in rows of a size.
abbrev pub Fits : ℕ → Field → Type 0
Fits total f = f.offset + f.num_components ≤ total

module _ (t : TypedArray) (total : ℕ) (f : Field) (start : ℕ) (values : List (Option t.Value)) where
  open t use {Value, convert}

  abbrev value : ℕ → ℕ → Value
  value i c = convert (value_at t values (f.num_components * i + c))

  abbrev row : ℕ → List Value → List Value
  row i = write f.num_components (λ c. place total f (start + i) c) (λ c. value i c)

  rows : ℕ → List Value → List Value
  rows n = for_up n row

  length-rows : (n : ℕ) (a : List Value) → length (rows n a) ≡ length a
  unfolding rows
  length-rows n a =
      for_up-invariant (λ b. length b ≡ length a) n row a refl
        (λ i b lt h.
          length-write f.num_components (λ c. place total f (start + i) c) (λ c. value i c) b ∙ h)

  rows-other :
      (n : ℕ) (a : List Value) (p : ℕ)
      → ((i c : ℕ) → i < n → c < f.num_components → place total f (start + i) c ≢ p)
      → get_elem? (rows n a) p ≡ get_elem? a p
  unfolding rows
  rows-other n a p away =
      for_up-invariant (λ b. get_elem? b p ≡ get_elem? a p) n row a refl
        (λ i b lt h.
          write-other f.num_components (λ c. place total f (start + i) c) (λ c. value i c) b p
            (λ c lt'. away i c lt lt')
          ∙ h)

  rows-at :
      (n : ℕ) (a : List Value) (i c : ℕ)
      → Fits total f
      → i < n
      → c < f.num_components
      → place total f (start + i) c < length a
      → get_elem? (rows n a) (place total f (start + i) c) ≡ some (value i c)
  unfolding rows for_up
  rows-at zero a i c fits lt lt' in_range = absurd (omega arith)
  rows-at (suc n) a i c fits lt lt' in_range = elim (Bool-cases (n == i)) [
    | inl same ↦
        let e : n ≡ i = ground arith in
        rw e (
          write-at f.num_components (λ c. place total f (start + i) c) (λ c. value i c) (rows i a) c
            lt' (omega (arith, length-rows i a)) (λ c' l ne e. ne (omega arith)))
    | inr other ↦
        write-other f.num_components (λ c. place total f (start + n) c) (λ c. value n c) (rows n a)
          (place total f (start + i) c)
          (λ c' l e.
            let (same_row, same_column) =
              place-injective total (start + n) (f.offset + c') (start + i) (f.offset + c)
                (omega arith) (omega arith) (omega arith) in
            let e' : n ≡ i = omega arith in ground arith)
        ∙ rows-at n a i c fits (ground arith) lt' in_range
  ]

  abbrev num_rows : ℕ
  num_rows = rounds (length values) f.num_components

  pub length-set_elements :
      (a : List Value) → length (set_elements t total f start values a) ≡ length a
  unfolding set_elements rows
  length-set_elements a = length-rows num_rows a

  pub set_elements-other :
      (a : List Value) (p : ℕ)
      → ((i c : ℕ) → i < num_rows → c < f.num_components → place total f (start + i) c ≢ p)
      → get_elem? (set_elements t total f start values a) p ≡ get_elem? a p
  unfolding set_elements rows
  set_elements-other a p away = rows-other num_rows a p away

  pub set_elements-at :
      (a : List Value) (i c : ℕ)
      → Fits total f
      → i < num_rows
      → c < f.num_components
      → place total f (start + i) c < length a
      → get_elem? (set_elements t total f start values a) (place total f (start + i) c)
        ≡ some (value i c)
  unfolding set_elements rows
  set_elements-at a i c fits lt lt' in_range = rows-at num_rows a i c fits lt lt' in_range

-- The values of an array are ones that were stored.
abbrev pub Stored : (t : TypedArray) → List t.Value → Type 0
Stored t a = (p : ℕ) (v : t.Value) → get_elem? a p ≡ some v → t.convert (some v) ≡ v

module _ (t : TypedArray) where
  open t use {Value, convert, convert_twice}

  set-Stored :
      (a : List Value) (q : ℕ) (w : Option Value) → Stored t a → Stored t (set a q (convert w))
  set-Stored a q w h p v e = elim (Bool-cases (q == p)) [
    | inr other ↦
        let ne : q ≢ p = ground arith in h p v (sym (get_elem?-set_ne a (convert w) ne) ∙ e)
    | inl t' ↦
        let same : q ≡ p = ground arith in
        let in_range : q < length a =
          omega (arith, get_elem?-lt (set a q (convert w)) p v e, length-set a q (convert w)) in
        let stored : convert w ≡ v = some-injective (convert w) v (
          sym (get_elem?-set_self a q (convert w) in_range)
          ∙ ap (get_elem? (set a q (convert w))) same
          ∙ e) in
        rw (sym stored) (convert_twice w)
  ]

  pub set_elements-Stored :
      (total : ℕ) (f : Field) (start : ℕ) (values : List (Option Value)) (a : List Value)
      → Stored t a
      → Stored t (set_elements t total f start values a)
  unfolding set_elements
  set_elements-Stored total f start values a h =
      for_up-invariant (Stored t) (rounds (length values) f.num_components) _ a h (λ i b lt hb.
        for_up-invariant (Stored t) f.num_components _ b hb
          (λ c b' lt' hb'. set-Stored b' (place total f (start + i) c) _ hb'))
