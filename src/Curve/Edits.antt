-- ===== src/Curve/Edits.antt =====
-- The changes of a curve through its keys, o3d-webgl/curve.js: the setters of `input` and `output`,
-- `destroy`, and any series of them and of the operations of the curve.
pub mod Counted
use toolbox.Base.{
  ℕ, zero, suc, ◌+◌, ◌-◌, ◌≡◌, refl, sym, ap, ◌∙◌, Bool, true, false, not, Option, none, some, List,
  [], ◌∷◌, ◌++◌, arith, if◌then◌else◌, get_elem?, set, Bool-cases, inl, inr,
}
use mathlib.Core.Option.{some-injective}
use toolbox.Base.Int.{ℤ, pos, ltb_ℤ, eqb_ℤ, ◌-ℤ◌}
use toolbox.Curve.Keys.{
  CurveKey, KeyType, step, linear, bezier, Curve, Outputs, new_curve, create_key, add_key, add_all,
  pairs_to_keys, groups_to_keys, add_linear_keys, add_step_keys, add_bezier_keys, invalidate_cache,
  insert_key, sort_keys, resort, update_curve_info,
}

module _ (o : Outputs) where
  open o use {Output, same}

  unfoldable pub remove_key : List (CurveKey Output) → ℕ → List (CurveKey Output)
  remove_key [] i = []
  remove_key (k ∷ ks) zero = ks
  remove_key (k ∷ ks) (suc i) = k ∷ remove_key ks i

  -- A key that a caller holds: one in the array, by its place, or one that `destroy` has taken out.
  -- A place where the array has no key stands for no key, and nothing is done for it.
  pub data KeyRef : Type 0 where
    standing : ℕ → KeyRef
    gone : CurveKey Output → KeyRef

  -- A change of the key at a place, if there is one.
  unfoldable pub with_key :
      Option (CurveKey Output) → (CurveKey Output → Curve Output) → Curve Output → Curve Output
  with_key none f c = c
  with_key (some k) f c = f k

  -- The setters of a key, which invalidate the cache of its owner when the value changes.
  unfoldable pub set_input : KeyRef → ℤ → Curve Output → Curve Output
  unfolding with_key invalidate_cache
  set_input (standing i) new_input c =
      with_key (get_elem? c.keys i)
        (λ k.
          if not (eqb_ℤ new_input k.input)
          then invalidate_cache o
              (record c { keys = set c.keys i (record k { input = new_input }) })
          else c)
        c
  set_input (gone k) new_input c = if not (eqb_ℤ new_input k.input) then invalidate_cache o c else c

  unfoldable pub set_output : KeyRef → Output → Curve Output → Curve Output
  unfolding with_key invalidate_cache
  set_output (standing i) new_output c =
      with_key (get_elem? c.keys i)
        (λ k.
          if not (same new_output k.output)
          then invalidate_cache o
              (record c { keys = set c.keys i (record k { output = new_output }) })
          else c)
        c
  set_output (gone k) new_output c =
      if not (same new_output k.output) then invalidate_cache o c else c

  -- What `destroy` of a step key adds to that of the others.
  unfoldable pub uncount_step : CurveKey Output → Curve Output → Curve Output
  uncount_step k c = record c {
    num_step_keys = (elim k.key_type [ step ↦ c.num_step_keys -ℤ pos 1 | _ ↦ c.num_step_keys ]);
  }

  -- `destroy` of a key. One that is not in the array any more is not found there, but counted again.
  unfoldable pub destroy_key : KeyRef → Curve Output → Curve Output
  unfolding with_key remove_key invalidate_cache uncount_step
  destroy_key (standing i) c =
      with_key (get_elem? c.keys i)
        (λ k. uncount_step k (invalidate_cache o (record c { keys = remove_key c.keys i }))) c
  destroy_key (gone k) c = uncount_step k (invalidate_cache o c)

  pub data Edit : Type 0 where
    create : KeyType → Edit
    add_linear add_step : List (ℤ × Output) → Edit
    add_bezier : List (ℤ × Output × Output × Output × Output × Output) → Edit
    move : KeyRef → ℤ → Edit
    change : KeyRef → Output → Edit
    destroy : KeyRef → Edit
    update : Edit

  unfoldable pub apply : Edit → Curve Output → Curve Output
  unfolding create_key add_linear_keys add_step_keys add_bezier_keys set_input set_output
      destroy_key update_curve_info
  apply (create t) c = create_key o t c
  apply (add_linear values) c = add_linear_keys o values c
  apply (add_step values) c = add_step_keys o values c
  apply (add_bezier values) c = add_bezier_keys o values c
  apply (move k new_input) c = set_input k new_input c
  apply (change k new_output) c = set_output k new_output c
  apply (destroy k) c = destroy_key k c
  apply update c = update_curve_info o c

  unfoldable pub run : List Edit → Curve Output → Curve Output
  unfolding apply
  run [] c = c
  run (e ∷ es) c = run es (apply e c)
