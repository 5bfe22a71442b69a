-- ===== src/Buffer/Created.antt =====
-- `createField` of o3d-webgl/buffer.js, on a buffer that has memory.
use toolbox.Base.{
  ℕ, suc, ◌+◌, ◌*◌, ◌/◌, ◌<◌, ◌≡◌, refl, sym, ap, ◌∙◌, some, List, [], ◌∷◌, ◌++◌, arith, length,
  length-append, get_elem?, get_elem?-lt, ltb, ◌==◌, replicate, true, false,
}
use native.Mathlib.Nat.{mul_comm, mul_assoc, mul-div_cancel_left}
use toolbox.Buffer.{
  TypedArray, Field, FieldType, Buffer, elements, lay_out, sum_components, get_at, save_fields,
  restore_fields, push_field, update_total_components, new_field, resize, create_field,
}
use toolbox.Buffer.Layout.{
  Laid, lay_out-Laid, sum_components-lay_out, lay_out-push, length-lay_out, sum_components-append,
}
use toolbox.Buffer.Fields.{Valid, cell, get_at-ext, elements-some}
use toolbox.Buffer.Saved.{Restored}
use toolbox.Buffer.Restored.{Restored-Valid, restore_fields-Restored, new-Restored}

module _ (t : TypedArray) (b : Buffer t.Value) (m id : ℕ) (field_type : FieldType) (n : ℕ) where
  open t use {Value, filler}

  -- The buffer with the new field and fresh memory.
  abbrev grown : Buffer Value
  grown = push_field t (new_field t id field_type n) b

  total-grown : Valid t b → grown.total_components ≡ b.total_components + n
  unfolding push_field update_total_components
  total-grown v =
      sum_components-append 0 b.fields (new_field t id field_type n) ∙ ap (◌+ n) (sym v.total)

  fields-grown : grown.fields ≡ lay_out 0 (b.fields ++ new_field t id field_type n ∷ [])
  unfolding push_field update_total_components
  fields-grown = refl

  sum-grown : grown.total_components ≡ sum_components 0 grown.fields
  unfolding push_field update_total_components
  sum-grown = sym (sum_components-lay_out 0 (b.fields ++ new_field t id field_type n ∷ []))

  length-fields-grown : length grown.fields ≡ suc (length b.fields)
  length-fields-grown =
      rw (fields-grown, length-lay_out)
        (omega (arith, length-append b.fields (new_field t id field_type n ∷ [])))

  -- The size that is computed is that of whole elements.
  size-grown :
      (size : ℕ)
      → size ≡ m * b.total_components
      → 0 < b.total_components
      → size * grown.total_components / b.total_components ≡ m * grown.total_components
  size-grown size e h =
      rw (e, mul_comm m b.total_components, mul_assoc b.total_components m grown.total_components)
        (mul-div_cancel_left (m * grown.total_components) h)

  create_field-restore :
      (a : List Value)
      → b.array ≡ some a
      → length a ≡ m * b.total_components
      → 0 < m * b.total_components
      → 0 < b.total_components
      → create_field t id field_type n b
        ≡ some (restore_fields t (save_fields t b) (resize t (m * grown.total_components) grown))
  unfolding create_field
  create_field-restore a e size some_elements h =
      let whole = size-grown (length (elements b)) (rw (elements-some t b a e) size) h in
      let t' : ltb 0 (length (elements b)) ≡ true =
        rw (elements-some t b a e, size) (ground arith) in
      let f' : (b.total_components == 0) ≡ false = ground arith in rw (t', f', whole) refl

  -- The buffer right before the data is put back.
  abbrev refilled : Buffer Value
  refilled = resize t (m * grown.total_components) grown

  refilled-new :
      (refilled.fields ≡ grown.fields)
      × (refilled.total_components ≡ grown.total_components)
      × (refilled.array ≡ some (replicate (m * grown.total_components) filler))
  unfolding resize
  refilled-new = (refl, refl, refl)

  refilled-kept :
      Valid t b
      → (j : ℕ) (f : Field) → get_elem? b.fields j ≡ some f
      → get_elem? refilled.fields j ≡ some f
  refilled-kept v j f at_f =
      rw (refilled-new.0, fields-grown)
        (lay_out-push 0 b.fields j f (new_field t id field_type n) v.laid at_f)

  refilled-Restored :
      (a : List Value)
      → Valid t b
      → b.array ≡ some a
      → length a ≡ m * b.total_components
      → 0 < b.total_components
      → Restored t b refilled m (length b.fields) (restore_fields t (save_fields t b) refilled)
        × Valid t (restore_fields t (save_fields t b) refilled)
  refilled-Restored a v e size h =
      let (same_fields, same_total, filled) = refilled-new in
      let laid : Laid 0 refilled.fields =
        rw (same_fields, fields-grown)
          (lay_out-Laid 0 (b.fields ++ new_field t id field_type n ∷ [])) in
      let total : refilled.total_components ≡ sum_components 0 refilled.fields =
        rw (same_total, same_fields) sum-grown in
      let start =
        new-Restored t b refilled m a v e size laid total (refilled-kept v)
          (rw same_total filled) in
      let restored =
        restore_fields-Restored t b refilled m a v e size laid total (refilled-kept v) h
          (rw same_fields length-fields-grown) start in
      (
        restored,
        Restored-Valid t b refilled m a v e size laid total (refilled-kept v) (length b.fields) _
            restored,
      )

-- The buffer that `createField` leaves: valid, with the elements that it had before, now of `n` more
-- components each.
pub record Extended (t : TypedArray) (b : Buffer t.Value) (m n : ℕ) (b' : Buffer t.Value)
    : Type 0 where
  pub valid : Valid t b'
  pub total : b'.total_components ≡ b.total_components + n
  pub size : length (elements b') ≡ m * (b.total_components + n)
  pub num_fields : length b'.fields ≡ suc (length b.fields)
  pub old_fields :
      (j : ℕ) (f : Field)
      → get_elem? b.fields j ≡ some f
      → (get_elem? b'.fields j ≡ some f) × (get_at t b' f 0 m ≡ get_at t b f 0 m)
  pub fresh_field :
      (f : Field)
      → get_elem? b'.fields (length b.fields) ≡ some f
      → (i x : ℕ) → i < m
      → x < f.num_components
      → cell t b' f i x ≡ some t.filler

-- In a valid buffer with memory of `m` whole elements, one at least, `createField` gives a buffer
-- that is valid again, with the same number of elements. Every field that was there keeps its place,
-- its number and what `getAt` of all elements gives, and the new field at the end has the value
-- that fresh memory is filled with in each component.
pub create_field-Extended :
    (t : TypedArray) (b : Buffer t.Value) (a : List t.Value) (m id : ℕ) (field_type : FieldType)
    (n : ℕ)
    → Valid t b
    → b.array ≡ some a
    → length a ≡ m * b.total_components
    → 0 < m * b.total_components
    → 0 < b.total_components
    → (b' : Buffer t.Value) × (create_field t id field_type n b ≡ some b') × Extended t b m n b'
create_field-Extended t b a m id field_type n v e size some_elements h =
    let (r, valid) = refilled-Restored t b m id field_type n a v e size h in
    let (same_fields, same_total, filled) = refilled-new t b m id field_type n in
    let grows = total-grown t b m id field_type n v in
    let c = restore_fields t (save_fields t b) (refilled t b m id field_type n) in
    (
      c,
      create_field-restore t b m id field_type n a e size some_elements h,
      record {
        valid = valid;
        total = r.same_total ∙ same_total ∙ grows;
        size =
            ap length (elements-some t c r.memory r.in_memory)
            ∙ r.size
            ∙ ap (m *◌) (same_total ∙ grows);
        num_fields =
            ap length (r.same_fields ∙ same_fields) ∙ length-fields-grown t b m id field_type n;
        old_fields = (λ j f at_f. (
          rw r.same_fields (refilled-kept t b m id field_type n v j f at_f),
          get_at-ext t c b f 0 m (λ i x lt lt'.
              r.back j f (get_elem?-lt b.fields j f at_f) at_f (0 + i) x (omega arith) lt'),
        ));
        fresh_field = (λ f at_f i x lt lt'.
            r.fresh (length b.fields) f (omega arith) (rw r.same_fields at at_f) i x lt lt');
      },
    )
