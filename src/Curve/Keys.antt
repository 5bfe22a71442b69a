-- ===== src/Curve/Keys.antt =====
-- The keys of a curve and its bookkeeping: `createKey`, `addLinearKeys`, `addStepKeys`,
-- `addBezierKeys`, `updateCurveInfo_` and `getOutputAtOffset` of o3d-webgl/curve.js.
use toolbox.Base.{
  Bool, true, false, not, ◌&&◌, ◌||◌, List, [], ◌∷◌, ◌++◌, if◌then◌else◌, length, ltb,
}
use toolbox.Base.Int.{ℤ, pos, ltb_ℤ, eqb_ℤ, ◌+ℤ◌, ◌-ℤ◌}

-- The numbers that a curve gives, with their arithmetic: floats in the source. Inputs are integers.
pub record Outputs : Type 1 where
  pub Output : Type 0
  pub of_ℤ : ℤ → Output
  pub add : Output → Output → Output
  pub sub : Output → Output → Output
  pub mul : Output → Output → Output
  pub div : Output → Output → Output
  pub same : Output → Output → Bool

pub data KeyType : Type 0 where
  step linear bezier : KeyType

pub record CurveKey (Output : Type 0) : Type 0 where
  pub key_type : KeyType
  pub input : ℤ
  pub output : Output
  pub in_tangent : Output × Output
  pub out_tangent : Output × Output

-- The five values of `o3d.Curve.Infinity`, and any other number.
pub data Infinity : Type 0 where
  constant linear cycle cycle_relative oscillate invalid : Infinity

pub record Curve (Output : Type 0) : Type 0 where
  pub pre_infinity : Infinity
  pub post_infinity : Infinity
  pub keys : List (CurveKey Output)
  pub sorted : Bool
  pub check_discontinuity : Bool
  pub discontinuous : Bool
  pub num_step_keys : ℤ

module _ (o : Outputs) where
  open o use {Output, of_ℤ, add, sub, mul, div, same}

  abbrev pub new_key : KeyType → ℤ → Output → CurveKey Output
  new_key t input output = record {
    key_type = t;
    input = input;
    output = output;
    in_tangent = (of_ℤ (pos 0), of_ℤ (pos 0));
    out_tangent = (of_ℤ (pos 0), of_ℤ (pos 0));
  }

  -- The constructor of a curve.
  abbrev pub new_curve : Curve Output
  new_curve = record {
    pre_infinity = constant;
    post_infinity = constant;
    keys = [];
    sorted = true;
    check_discontinuity = false;
    discontinuous = false;
    num_step_keys = pos 0;
  }

  unfoldable pub invalidate_cache : Curve Output → Curve Output
  invalidate_cache c = record c { check_discontinuity = true }

  -- `createKey`, with the constructors of the keys. A new key stands at input 0 with output 0.
  unfoldable pub create_key : KeyType → Curve Output → Curve Output
  create_key t c = record c {
    keys = c.keys ++ new_key t (pos 0) (of_ℤ (pos 0)) ∷ [];
    num_step_keys = (elim t [ step ↦ c.num_step_keys +ℤ pos 1 | _ ↦ c.num_step_keys ]);
  }

  -- `createKey`, and the setters of the new key's `input` and `output`, which invalidate the cache
  -- where they change the value; the tangents of a Bezier key are changed in place.
  unfoldable pub add_key : CurveKey Output → Curve Output → Curve Output
  unfolding create_key
  add_key k c = record (create_key k.key_type c) {
    keys = c.keys ++ k ∷ [];
    check_discontinuity =
        c.check_discontinuity || not (eqb_ℤ k.input (pos 0)) || not (same k.output (of_ℤ (pos 0)));
  }

  unfoldable pub add_all : List (CurveKey Output) → Curve Output → Curve Output
  unfolding add_key
  add_all [] c = c
  add_all (k ∷ ks) c = add_all ks (add_key k c)

  -- `addLinearKeys`, `addStepKeys` and `addBezierKeys`, on the groups of 2 or 6 values: a list whose
  -- length is no multiple of the group is not modelled.
  unfoldable pub pairs_to_keys : KeyType → List (ℤ × Output) → List (CurveKey Output)
  pairs_to_keys t [] = []
  pairs_to_keys t ((i, v) ∷ rest) = new_key t i v ∷ pairs_to_keys t rest

  unfoldable pub add_linear_keys : List (ℤ × Output) → Curve Output → Curve Output
  unfolding add_all pairs_to_keys
  add_linear_keys values c = record (add_all (pairs_to_keys linear values) c) { sorted = false }

  unfoldable pub add_step_keys : List (ℤ × Output) → Curve Output → Curve Output
  unfolding add_all pairs_to_keys
  add_step_keys values c = record (add_all (pairs_to_keys step values) c) { sorted = false }

  unfoldable pub groups_to_keys :
      List (ℤ × Output × Output × Output × Output × Output) → List (CurveKey Output)
  groups_to_keys [] = []
  groups_to_keys ((i, v, in_x, in_y, out_x, out_y) ∷ rest) =
      record (new_key bezier i v) { in_tangent = (in_x, in_y); out_tangent = (out_x, out_y) }
      ∷ groups_to_keys rest

  unfoldable pub add_bezier_keys :
      List (ℤ × Output × Output × Output × Output × Output) → Curve Output → Curve Output
  unfolding add_all groups_to_keys
  add_bezier_keys values c = record (add_all (groups_to_keys values) c) { sorted = false }

  -- `keys.sort(compareInputs_)`: a stable sort by input.
  unfoldable pub insert_key : CurveKey Output → List (CurveKey Output) → List (CurveKey Output)
  insert_key k [] = k ∷ []
  insert_key k (l ∷ ls) = if ltb_ℤ l.input k.input then l ∷ insert_key k ls else k ∷ l ∷ ls

  unfoldable pub sort_keys : List (CurveKey Output) → List (CurveKey Output)
  unfolding insert_key
  sort_keys [] = []
  sort_keys (k ∷ ks) = insert_key k (sort_keys ks)

  -- The loop of `updateCurveInfo_`: two neighbours at one input with different outputs.
  unfoldable pub has_jump : List (CurveKey Output) → Bool
  has_jump [] = false
  has_jump (k ∷ []) = false
  has_jump (k ∷ l ∷ ls) =
      (eqb_ℤ k.input l.input && not (same k.output l.output)) || has_jump (l ∷ ls)

  unfoldable pub resort : Curve Output → Curve Output
  unfolding sort_keys invalidate_cache
  resort c =
      if c.sorted then c else invalidate_cache (record c { keys = sort_keys c.keys; sorted = true })

  unfoldable pub update_curve_info : Curve Output → Curve Output
  unfolding resort has_jump
  update_curve_info c =
      let c' = resort c in
      let mixed =
        ltb_ℤ (pos 0) c'.num_step_keys && not (eqb_ℤ c'.num_step_keys (pos (length c'.keys))) in
      if c'.check_discontinuity
      then record c' {
        check_discontinuity = false;
        discontinuous = mixed || (ltb 1 (length c'.keys) && has_jump c'.keys);
      }
      else c'

  unfoldable pub is_discontinuous : Curve Output → Bool
  unfolding update_curve_info
  is_discontinuous c = (update_curve_info c).discontinuous

  -- `getOutputAtOffset` of step and linear keys; that of Bezier keys is the parameter.
  unfoldable pub get_output_at_offset :
      (CurveKey Output → ℤ → CurveKey Output → Output)
      → CurveKey Output
      → ℤ
      → CurveKey Output
      → Output
  get_output_at_offset bezier_output k offset next = elim k.key_type [
    | step ↦ k.output
    | linear ↦
        add k.output
          (mul (div (of_ℤ offset) (of_ℤ (next.input -ℤ k.input))) (sub next.output k.output))
    | bezier ↦ bezier_output k offset next
  ]
