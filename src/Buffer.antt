-- ===== src/Buffer.antt =====
-- scalajs/o3d/src/main/javascript/o3d-webgl/buffer.js and field.js: buffers of numbers and their
-- fields. The calls of WebGL are left out, as they change nothing here.
pub mod Loops
pub mod Layout
pub mod Cells
pub mod Fields
pub mod Saved
pub mod Restored
pub mod Created
mod Tests
use toolbox.Base.{
  ℕ, zero, suc, ◌+◌, ◌-◌, ◌*◌, ◌/◌, ◌≡◌, Bool, true, false, not, ◌&&◌, Option, none, some, List, [],
  ◌∷◌, ◌++◌, ◌==◌, if◌then◌else◌, length, get_elem?, set, replicate, ltb, map,
}
use toolbox.Buffer.Loops.{for_up, collect}

-- A typed array: what it is filled with, and the conversion of a value stored in it, or of
-- `undefined`. A stored value is stored again as it is.
pub record TypedArray : Type 1 where
  pub Value : Type 0
  pub filler : Value
  pub convert : Option Value → Value
  pub convert_filler : convert (some filler) ≡ filler
  pub convert_twice : (v : Option Value) → convert (some (convert v)) ≡ convert v

pub data FieldType : Type 0 where
  float_field u_int32_field u_byte_n_field : FieldType

pub record Field : Type 0 where
  pub id : ℕ
  pub num_components : ℕ
  pub offset : ℕ
  pub size : ℕ

-- `array` is `null`, `none` here, before the first call of `resize`.
pub record Buffer (Value : Type 0) : Type 0 where
  pub fields : List Field
  pub array : Option (List Value)
  pub total_components : ℕ

abbrev pub elements : {Value : Type 0} → Buffer Value → List Value
elements b = elim b.array [ none ↦ [] | some a ↦ a ]

-- The loop of `updateTotalComponents_`.
unfoldable pub lay_out : ℕ → List Field → List Field
lay_out total [] = []
lay_out total (f ∷ fs) = record f { offset = total } ∷ lay_out (total + f.num_components) fs

unfoldable pub sum_components : ℕ → List Field → ℕ
sum_components total [] = total
sum_components total (f ∷ fs) = sum_components (total + f.num_components) fs

-- The rounds of a loop up to the quotient of two numbers, which need not be whole.
abbrev pub rounds : ℕ → ℕ → ℕ
rounds a b = (a + b - 1) / b

module _ (t : TypedArray) where
  open t use {Value, filler, convert}

  abbrev pub new_buffer : Buffer Value
  new_buffer = record { fields = []; array = none; total_components = 0 }

  unfoldable pub update_total_components : Buffer Value → Buffer Value
  unfolding lay_out sum_components
  update_total_components b = record b {
    fields = lay_out 0 b.fields;
    total_components = sum_components 0 b.fields;
  }

  unfoldable pub resize : ℕ → Buffer Value → Buffer Value
  resize size b = record b { array = some (replicate size filler) }

  unfoldable pub allocate_elements : ℕ → Buffer Value → Buffer Value
  unfolding update_total_components resize
  allocate_elements num_elements b =
      let b' = update_total_components b in resize (num_elements * b'.total_components) b'

  -- `getAtHelper_`, with `undefined` behind the end.
  unfoldable pub get_at_helper : Buffer Value → ℕ → ℕ → ℕ → ℕ → List (Option Value)
  get_at_helper b start_index num_elements offset num_components = collect num_elements (λ i.
      collect num_components
        (λ c. get_elem? (elements b) ((start_index + i) * b.total_components + offset + c) ∷ []))

  -- `getAt` of a field, of a vertex buffer and `get` of a vertex buffer.
  unfoldable pub get_at : Buffer Value → Field → ℕ → ℕ → List (Option Value)
  unfolding get_at_helper
  get_at b f start_index num_elements =
      get_at_helper b start_index num_elements f.offset f.num_components

  unfoldable pub get_vertices_at : Buffer Value → ℕ → ℕ → List (Option Value)
  unfolding get_at_helper
  get_vertices_at b start_index num_elements =
      get_at_helper b start_index num_elements 0 b.total_components

  unfoldable pub get_vertices : Buffer Value → List (Option Value)
  unfolding get_at_helper
  get_vertices b =
      get_at_helper b 0 (rounds (length (elements b)) b.total_components) 0 b.total_components

  -- The value at an index of an argument, `undefined` behind its end.
  abbrev pub value_at : List (Option Value) → ℕ → Option Value
  value_at values i = elim (get_elem? values i) [ none ↦ none | some v ↦ v ]

  -- `setAt` of a field. A field of no components, for which the source divides by 0, takes none.
  unfoldable pub set_elements : ℕ → Field → ℕ → List (Option Value) → List Value → List Value
  unfolding for_up
  set_elements total f start_index values array =
      for_up (rounds (length values) f.num_components)
        (λ i. for_up f.num_components (λ c a.
          set a ((start_index + i) * total + f.offset + c)
            (convert (value_at values (f.num_components * i + c)))))
        array

  unfoldable pub set_at : Buffer Value → Field → ℕ → List (Option Value) → Buffer Value
  unfolding set_elements
  set_at b f start_index values = elim b.array [
    | none ↦ b
    | some a ↦ record b { array = some (set_elements b.total_components f start_index values a) }
  ]

  -- The loops of `createField`: the copies of the data of the fields, and back.
  unfoldable pub save_fields : Buffer Value → List (List (Option Value))
  unfolding get_at
  save_fields b = map (λ f. get_at b f 0 (rounds (length (elements b)) b.total_components)) b.fields

  unfoldable pub restore_fields : List (List (Option Value)) → Buffer Value → Buffer Value
  unfolding set_at for_up
  restore_fields saved b =
      for_up (length b.fields)
        (λ i b'. elim (get_elem? saved i) [
          | none ↦ b'
          | some values ↦ elim (get_elem? b.fields i) [ none ↦ b' | some f ↦ set_at b' f 0 values ]
        ])
        b

  abbrev pub component_size : FieldType → ℕ
  component_size float_field = 4
  component_size u_int32_field = 4
  component_size u_byte_n_field = 1

  abbrev pub new_field : ℕ → FieldType → ℕ → Field
  new_field id field_type n = record {
    id = id;
    num_components = n;
    offset = 0;
    size = n * component_size field_type;
  }

  unfoldable pub push_field : Field → Buffer Value → Buffer Value
  unfolding update_total_components
  push_field f b = update_total_components (record b { fields = b.fields ++ f ∷ [] })

  -- `createField`. The elements are a whole number, or `resize` rounds down what they take; `none`
  -- is an array whose size is no number, which throws.
  unfoldable pub create_field : ℕ → FieldType → ℕ → Buffer Value → Option (Buffer Value)
  unfolding save_fields restore_fields push_field resize
  create_field id field_type n b =
      let size = length (elements b) in
      let b' = push_field (new_field id field_type n) b in
      if ltb 0 size
      then if b.total_components == 0
        then none
        else some (
            restore_fields (save_fields b)
              (resize (size * b'.total_components / b.total_components) b'))
      else some b'

  unfoldable pub remove_id : List Field → ℕ → List Field
  remove_id [] id = []
  remove_id (f ∷ fs) id = if f.id == id then fs else f ∷ remove_id fs id

  unfoldable pub remove_field : ℕ → Buffer Value → Buffer Value
  unfolding remove_id update_total_components
  remove_field id b = update_total_components (record b { fields = remove_id b.fields id })

  -- `set` of a buffer, of values that are there; no values are not modelled.
  unfoldable pub set_values : List Value → Buffer Value → Buffer Value
  unfolding resize for_up
  set_values values b =
      let same_size : Bool = elim b.array [ none ↦ false | some a ↦ length a == length values ] in
      let b' = if same_size then b else resize (length values) b in
      record b' {
        array =
            some (
              for_up (length values) (λ i a. set a i (convert (get_elem? values i))) (elements b'));
      }
