-- ===== src/Buffer/Fields.antt =====
-- `getAt` and `setAt` of the fields of one buffer, o3d-webgl/field.js.
use toolbox.Base.{
  ℕ, suc, ◌+◌, ◌*◌, ◌≤◌, ◌<◌, ◌≡◌, ◌≢◌, refl, sym, ap, ◌∙◌, Option, none, some, List, [], ◌∷◌,
  arith, length, get_elem?, ltb, Bool-cases, inl, inr,
}
use toolbox.Buffer.{
  TypedArray, Field, Buffer, elements, rounds, value_at, sum_components, set_elements, set_at,
  get_at, get_at_helper,
}
use toolbox.Buffer.Loops.{collect-ext, grid, grid-at, rounds_exact}
use toolbox.Buffer.Layout.{Laid, Laid-bounds, Laid-apart, place-injective, row_step}
use toolbox.Buffer.Cells.{place, Fits, Stored, set_elements-other, set_elements-at}

module _ (t : TypedArray) where
  open t use {Value, convert}

  -- The fields are laid out in the components of an element, and the values are stored ones.
  pub record Valid (b : Buffer Value) : Type 0 where
    pub laid : Laid 0 b.fields
    pub total : b.total_components ≡ sum_components 0 b.fields
    pub stored : Stored t (elements b)

  -- A component of an element, `undefined` behind the end.
  abbrev pub cell : Buffer Value → Field → ℕ → ℕ → Option Value
  cell b f i c = get_elem? (elements b) (place b.total_components f i c)

  pub get_at-grid :
      (b : Buffer Value) (f : Field) (start n : ℕ)
      → get_at t b f start n ≡ grid n f.num_components (λ i c. cell b f (start + i) c)
  unfolding get_at get_at_helper
  get_at-grid b f start n = refl

  -- Equal cells make equal reads.
  pub get_at-ext :
      (b b' : Buffer Value) (f : Field) (start n : ℕ)
      → ((i c : ℕ)
          → i < n
          → c < f.num_components
          → cell b f (start + i) c ≡ cell b' f (start + i) c)
      → get_at t b f start n ≡ get_at t b' f start n
  unfolding get_at get_at_helper
  get_at-ext b b' f start n h =
      collect-ext n _ _
        (λ i lt. collect-ext f.num_components _ _ (λ c lt'. ap (◌∷ []) (h i c lt lt')))

  pub Valid-Fits :
      (b : Buffer Value) (k : ℕ) (f : Field)
      → Valid b
      → get_elem? b.fields k ≡ some f
      → Fits b.total_components f
  Valid-Fits b k f v e = omega (arith, v.total, (Laid-bounds 0 b.fields k f v.laid e).1)

  pub elements-set_at :
      (b : Buffer Value) (a : List Value) (f : Field) (start : ℕ) (values : List (Option Value))
      → b.array ≡ some a
      → elements (set_at t b f start values) ≡ set_elements t b.total_components f start values a
  unfolding set_at
  elements-set_at b a f start values e = rw e refl

  pub elements-some : (b : Buffer Value) (a : List Value) → b.array ≡ some a → elements b ≡ a
  elements-some b a e = rw e refl

  pub total-set_at :
      (b : Buffer Value) (f : Field) (start : ℕ) (values : List (Option Value))
      → (set_at t b f start values).total_components ≡ b.total_components
  unfolding set_at
  total-set_at b f start values = go b.array
    where
      go :
          (o : Option (List Value))
          → (elim o as (λ _. Buffer Value) [
            | none ↦ b
            | some a ↦ record b {
              array = some (set_elements t b.total_components f start values a);
            }
          ]).total_components
            ≡ b.total_components
      go none = refl
      go (some a) = refl

  module _ (b : Buffer Value) (a : List Value) (v : Valid b) (e : b.array ≡ some a) where
    -- Components of two fields are never at one place.
    fields_apart :
        (j k : ℕ) (f g : Field) (c c' : ℕ)
        → j ≢ k
        → get_elem? b.fields j ≡ some f
        → get_elem? b.fields k ≡ some g
        → c < f.num_components
        → c' < g.num_components
        → f.offset + c ≢ g.offset + c'
    fields_apart j k f g c c' ne at_f at_g lt lt' same = elim (Bool-cases (ltb j k)) [
      | inl before ↦ omega (arith, Laid-apart 0 b.fields j k f g v.laid at_f at_g (ground arith))
      | inr not_before ↦ elim (Bool-cases (ltb k j)) [
        | inl after ↦ omega (arith, Laid-apart 0 b.fields k j g f v.laid at_g at_f (ground arith))
        | inr not_after ↦ ne (ground arith)
      ]
    ]

    -- A cell of another field is not written.
    pub cell-set_at_other :
        (j k : ℕ) (f g : Field) (start : ℕ) (values : List (Option Value)) (i c : ℕ)
        → j ≢ k
        → get_elem? b.fields j ≡ some f
        → get_elem? b.fields k ≡ some g
        → c < g.num_components
        → cell (set_at t b f start values) g i c ≡ cell b g i c
    cell-set_at_other j k f g start values i c ne at_f at_g lt =
        let fits = Valid-Fits b j f v at_f in
        let fits' = Valid-Fits b k g v at_g in
        rw
          (total-set_at b f start values, elements-set_at b a f start values e, elements-some b a e)
          (set_elements-other t b.total_components f start values a (place b.total_components g i c)
            (λ i' c' l l' same.
              fields_apart j k f g c' c ne at_f at_g l' lt
                (place-injective b.total_components (start + i') (f.offset + c') i (g.offset + c)
                  (omega arith) (omega arith) (omega arith)).1))

    -- A written cell.
    pub cell-set_at_self :
        (k : ℕ) (f : Field) (start : ℕ) (values : List (Option Value)) (i c : ℕ)
        → get_elem? b.fields k ≡ some f
        → i < rounds (length values) f.num_components
        → c < f.num_components
        → (start + i) * b.total_components + b.total_components ≤ length a
        → cell (set_at t b f start values) f (start + i) c
          ≡ some (convert (value_at t values (f.num_components * i + c)))
    cell-set_at_self k f start values i c at_f lt lt' in_range =
        rw (total-set_at b f start values, elements-set_at b a f start values e)
          (set_elements-at t b.total_components f start values a i c (Valid-Fits b k f v at_f) lt
            lt' (omega (arith, Valid-Fits b k f v at_f)))

  -- In a valid buffer with memory, `setAt` of a field with whole elements inside the memory makes
  -- `getAt` of the same elements give the converted values in their order, component by component,
  -- and leaves what `getAt` of every other field gives, for any range.
  pub get_at-set_at :
      (b : Buffer Value) (a : List Value) (k : ℕ) (f : Field) (start n : ℕ)
      (values : List (Option Value))
      → Valid b
      → b.array ≡ some a
      → get_elem? b.fields k ≡ some f
      → 0 < f.num_components
      → length values ≡ f.num_components * n
      → (start + n) * b.total_components ≤ length a
      → ((i c : ℕ)
          → i < n
          → c < f.num_components
          → get_elem? (get_at t (set_at t b f start values) f start n) (f.num_components * i + c)
            ≡ some (some (convert (value_at t values (f.num_components * i + c)))))
        × ((j : ℕ) (g : Field) (from m : ℕ)
            → j ≢ k
            → get_elem? b.fields j ≡ some g
            → get_at t (set_at t b f start values) g from m ≡ get_at t b g from m)
  get_at-set_at b a k f start n values v e at_f some_components size in_range = (
    λ i c lt lt'.
        let next : suc (start + i) ≤ start + n = omega arith in
        let rows : rounds (length values) f.num_components ≡ n =
          rw size (rounds_exact f.num_components n some_components) in
        ap (λ l. get_elem? l (f.num_components * i + c))
          (get_at-grid (set_at t b f start values) f start n)
        ∙ grid-at n f.num_components (λ i c. cell (set_at t b f start values) f (start + i) c) i c
            lt lt'
        ∙ ap some (
            cell-set_at_self b a v e k f start values i c at_f (omega arith) lt'
              (omega (arith, row_step b.total_components (start + i) (start + n) next))),
    λ j g from m ne at_g. get_at-ext (set_at t b f start values) b g from m (λ i c lt lt'.
        cell-set_at_other b a v e k j f g start values (from + i) c (λ same. ne (sym same)) at_f
          at_g lt'),
  )
