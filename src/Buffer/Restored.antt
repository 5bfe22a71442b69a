-- ===== src/Buffer/Restored.antt =====
-- The loop of `createField` of o3d-webgl/buffer.js that puts the saved data back.
use toolbox.Base.{
  ℕ, zero, suc, ◌+◌, ◌*◌, ◌≤◌, ◌<◌, ◌≡◌, refl, sym, ap, ◌∙◌, Option, none, some, List, arith,
  length, get_elem?, ◌==◌, Bool-cases, inl, inr, get_elem?-some, replicate, length-replicate, map,
  length-map,
}
use native.Mathlib.Nat.{zero-add, mul_comm}
use mathlib.Core.Option.{some-injective}
use toolbox.Buffer.{
  TypedArray, Field, Buffer, elements, rounds, value_at, sum_components, set_elements, set_at,
  get_at, save_fields, restore_fields,
}
use toolbox.Buffer.Loops.{for_up, grid-at, length-grid, rounds_exact}
use toolbox.Buffer.Layout.{Laid, Laid-bounds, row_step}
use toolbox.Buffer.Cells.{place, length-set_elements, set_elements-Stored}
use toolbox.Buffer.Fields.{
  Valid, cell, get_at-grid, elements-some, cell-set_at_other, cell-set_at_self, Valid-Fits,
}
use toolbox.Buffer.Saved.{
  Restored, get_elem?-replicate, get_elem?-map, get_elem?-beyond, replicate-Stored, value_at-some,
  set_at-array,
}

module _ (t : TypedArray) where
  open t use {Value, filler, convert, convert_filler}

  module _ (b c : Buffer Value) (m : ℕ) (a : List Value) (v : Valid t b) (e : b.array ≡ some a)
      (size_a : length a ≡ m * b.total_components) (laid : Laid 0 c.fields)
      (total : c.total_components ≡ sum_components 0 c.fields)
      (kept : (j : ℕ) (f : Field)
        → get_elem? b.fields j ≡ some f
        → get_elem? c.fields j ≡ some f) where
    pub Restored-Valid : (k : ℕ) (d : Buffer Value) → Restored t b c m k d → Valid t d
    Restored-Valid k d r = record {
      laid = rw r.same_fields laid;
      total = rw (r.same_fields, r.same_total) total;
      stored = rw (elements-some t d r.memory r.in_memory) r.stored;
    }

    -- A cell of the old data, as it was saved.
    saved_cell :
        (j : ℕ) (f : Field) (i x : ℕ)
        → get_elem? b.fields j ≡ some f
        → i < m
        → x < f.num_components
        → ◌≡◌ {A = Option Value}
            (some (convert (value_at t (get_at t b f 0 m) (f.num_components * i + x))))
            (cell t b f i x)
    saved_cell j f i x at_f lt lt' =
        let in_row = Valid-Fits t b j f v at_f in
        let in_range : place b.total_components f i x < length a =
          omega (arith, row_step b.total_components i m lt) in
        let (w, at_w) = get_elem?-some a (place b.total_components f i x) in_range in
        let at_cell : cell t b f i x ≡ some w = rw (elements-some t b a e) at_w in
        let read : get_elem? (get_at t b f 0 m) (f.num_components * i + x) ≡ some (some w) =
          ap (λ l. get_elem? l (f.num_components * i + x)) (get_at-grid t b f 0 m)
          ∙ grid-at m f.num_components (λ i c. cell t b f (0 + i) c) i x lt lt'
          ∙ ap some (rw (zero-add i) at_cell) in
        ap (λ o. some (convert o)) (value_at-some t (get_at t b f 0 m) _ (some w) read)
        ∙ ap some (v.stored _ w at_cell)
        ∙ sym at_cell

    -- The round writes the saved data of its field.
    cell-restore_round :
        (k : ℕ) (f : Field) (d : Buffer Value) (i x : ℕ)
        → get_elem? b.fields k ≡ some f
        → Restored t b c m k d
        → i < m
        → x < f.num_components
        → cell t (set_at t d f 0 (get_at t b f 0 m)) f i x ≡ cell t b f i x
    cell-restore_round k f d i x at_f r lt lt' =
        let size : length (get_at t b f 0 m) ≡ f.num_components * m =
          ap length (get_at-grid t b f 0 m)
          ∙ length-grid m f.num_components (λ i c. cell t b f (0 + i) c) in
        let rows : rounds (length (get_at t b f 0 m)) f.num_components ≡ m =
          rw size (rounds_exact f.num_components m (omega arith)) in
        ap (λ row. cell t (set_at t d f 0 (get_at t b f 0 m)) f row x) (sym (zero-add i))
        ∙ cell-set_at_self t d r.memory (Restored-Valid k d r) r.in_memory k f 0 (get_at t b f 0 m)
            i x (rw r.same_fields (kept k f at_f)) (omega arith) lt'
            (omega (
              arith,
              r.size,
              r.same_total,
              zero-add i,
              ap (◌* d.total_components) (zero-add i),
              ap (m *◌) r.same_total,
              row_step d.total_components i m lt,
            ))
        ∙ saved_cell k f i x at_f lt lt'

    restore_round :
        (k : ℕ) (f : Field) (d : Buffer Value)
        → get_elem? b.fields k ≡ some f
        → Restored t b c m k d
        → Restored t b c m (suc k) (set_at t d f 0 (get_at t b f 0 m))
    restore_round k f d at_f r =
        let valid = Restored-Valid k d r in
        let saved = get_at t b f 0 m in
        let written = set_at-array t d r.memory f 0 saved r.in_memory in
        let in_d : (j : ℕ) (g : Field)
            → get_elem? c.fields j ≡ some g
            → get_elem? d.fields j ≡ some g =
          λ j g at_g. rw r.same_fields at_g in
        record {
          same_fields = ap (λ x. x.fields) written ∙ r.same_fields;
          same_total = ap (λ x. x.total_components) written ∙ r.same_total;
          memory = set_elements t d.total_components f 0 saved r.memory;
          in_memory = ap (λ x. x.array) written;
          size = length-set_elements t d.total_components f 0 saved r.memory ∙ r.size;
          stored = set_elements-Stored t d.total_components f 0 saved r.memory r.stored;
          back = (λ j g lt at_g i x lt_i lt_x. elim (Bool-cases (j == k)) [
            | inl t' ↦
                let same : j ≡ k = ground arith in
                let same_field : g ≡ f =
                  some-injective g f (sym at_g ∙ ap (get_elem? b.fields) same ∙ at_f) in
                rw (same_field) (cell-restore_round k f d i x at_f r lt_i (rw same_field at lt_x))
            | inr other ↦
                cell-set_at_other t d r.memory valid r.in_memory k j f g 0 saved i x (ground arith)
                  (in_d k f (kept k f at_f)) (in_d j g (kept j g at_g)) lt_x
                ∙ r.back j g (ground arith) at_g i x lt_i lt_x
          ]);
          fresh = (λ j g le at_g i x lt_i lt_x.
              cell-set_at_other t d r.memory valid r.in_memory k j f g 0 saved i x (omega arith)
                (in_d k f (kept k f at_f)) (in_d j g at_g) lt_x
              ∙ r.fresh j g (omega arith) at_g i x lt_i lt_x);
        }

    restore : ℕ → Buffer Value → Buffer Value
    restore i d = elim (get_elem? (save_fields t b) i) [
      | none ↦ d
      | some values ↦ elim (get_elem? c.fields i) [ none ↦ d | some f ↦ set_at t d f 0 values ]
    ]

    saved_at :
        (k : ℕ) (f : Field)
        → 0 < b.total_components
        → get_elem? b.fields k ≡ some f
        → get_elem? (save_fields t b) k ≡ some (get_at t b f 0 m)
    unfolding save_fields
    saved_at k f pos_total at_f =
        let rows : rounds (length (elements b)) b.total_components ≡ m =
          rw (elements-some t b a e, size_a, mul_comm m b.total_components)
            (rounds_exact b.total_components m pos_total) in
        rw
          (get_elem?-map (λ f. get_at t b f 0 (rounds (length (elements b)) b.total_components))
            b.fields k f at_f)
          (ap (λ rows. some (get_at t b f 0 rows)) rows)

    restore_saved :
        (k : ℕ) (f : Field) (d : Buffer Value)
        → get_elem? (save_fields t b) k ≡ some (get_at t b f 0 m)
        → get_elem? c.fields k ≡ some f
        → restore k d ≡ set_at t d f 0 (get_at t b f 0 m)
    unfolding restore
    restore_saved k f d saved at_f = rw (restore, saved, at_f) refl

    restore_end : (d : Buffer Value) → restore (length b.fields) d ≡ d
    unfolding restore save_fields
    restore_end d =
        rw
          (
            restore,
            get_elem?-beyond
                (map (λ f. get_at t b f 0 (rounds (length (elements b)) b.total_components))
                  b.fields)
                (length b.fields)
                (omega (
                  arith,
                  length-map b.fields
                      (λ f. get_at t b f 0 (rounds (length (elements b)) b.total_components)),
                )),
          )
          refl

    restore_all :
        (k : ℕ)
        → 0 < b.total_components
        → k ≤ length b.fields
        → Restored t b c m 0 c
        → Restored t b c m k (for_up k restore c)
    unfolding for_up
    restore_all zero pos_total le r = r
    restore_all (suc k) pos_total le r =
        let (f, at_f) = get_elem?-some b.fields k (omega arith) in
        rw (restore_saved k f (for_up k restore c) (saved_at k f pos_total at_f) (kept k f at_f))
          (restore_round k f (for_up k restore c) at_f (restore_all k pos_total (omega arith) r))

    pub restore_fields-Restored :
        0 < b.total_components
        → length c.fields ≡ suc (length b.fields)
        → Restored t b c m 0 c
        → Restored t b c m (length b.fields) (restore_fields t (save_fields t b) c)
    unfolding restore_fields restore for_up
    restore_fields-Restored pos_total size r = rw size (
        rw (restore_end (for_up (length b.fields) restore c))
          (restore_all (length b.fields) pos_total (omega arith) r))

    pub new-Restored :
        c.array ≡ some (replicate (m * c.total_components) filler) → Restored t b c m 0 c
    new-Restored filled = record {
      same_fields = refl;
      same_total = refl;
      memory = replicate (m * c.total_components) filler;
      in_memory = filled;
      size = length-replicate (m * c.total_components) filler;
      stored = replicate-Stored t (m * c.total_components);
      back = (λ j f lt at_f i x l l'. absurd (omega arith));
      fresh = (λ j f le at_f i x l l'.
          let (low, high) = Laid-bounds 0 c.fields j f laid at_f in
          rw (elements-some t c (replicate (m * c.total_components) filler) filled) (
            get_elem?-replicate (m * c.total_components) (place c.total_components f i x) filler
              (omega (arith, total, row_step c.total_components i m l))));
    }
