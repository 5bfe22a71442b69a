-- ===== src/Drawing/Traverse.antt =====
-- The traversal of the transforms: `traverse` of o3d-webgl/transform.js and o3d-webgl/tree_traversal.js.
use toolbox.Base.{
  ℕ, zero, suc, Bool, true, false, not, ◌||◌, List, [], ◌∷◌, ◌++◌, Option, none, some,
  if◌then◌else◌, ◌==◌,
}
use toolbox.Ring.{Numbers, Reals}
use toolbox.Math.{Matrix4}
use toolbox.BoundingBox.{Box, in_frustum}
use toolbox.Transform.Matrices.{compose}
use toolbox.Transform.Tree.{Node, write, with_world, unit_matrix}
use toolbox.Drawing.{
  Scene, DrawListInfo, Drawing, each, with_stats, with_lists, write_to_draw_lists,
}

abbrev pub is_empty : {A : Type 0} → List A → Bool
is_empty [] = true
is_empty (x ∷ l) = false

-- A loop over calls that may not return.
unfoldable pub each_call : {S : Type 0} → (ℕ → S → Option S) → List ℕ → Option S → Option S
each_call g [] s = s
each_call g (x ∷ l) none = none
each_call g (x ∷ l) (some s) = each_call g l (g x s)

pub record TreeTraversal (N : Type 0) : Type 0 where
  pub transform : ℕ
  pub draw_lists_to_reset : List ℕ
  pub draw_lists : List (DrawListInfo N)

module _ {N : Type 0} where
  -- The list is reset if `reset` is undefined or true.
  unfoldable pub register_draw_list :
      DrawListInfo N → Option Bool → TreeTraversal N → TreeTraversal N
  register_draw_list info reset t = record {
    transform = t.transform;
    draw_lists_to_reset = elim reset [
      | none ↦ t.draw_lists_to_reset ++ info.list ∷ []
      | some true ↦ t.draw_lists_to_reset ++ info.list ∷ []
      | some false ↦ t.draw_lists_to_reset
    ];
    draw_lists = t.draw_lists ++ info ∷ [];
  }

  unfoldable pub reset_list : ℕ → Drawing N → Drawing N
  reset_list list d = with_lists (λ l. if l == list then [] else d.lists l) d

  abbrev pub transform_processed : Drawing N → Drawing N
  transform_processed d =
      with_stats (record d.stats { transforms_processed = suc d.stats.transforms_processed }) d

  abbrev pub transform_culled : Drawing N → Drawing N
  transform_culled d =
      with_stats (record d.stats { transforms_culled = suc d.stats.transforms_culled }) d

  abbrev pub set_world : ℕ → Matrix4 N → Drawing N → Drawing N
  set_world this world d = record d {
    transforms = write d.transforms this (with_world world (d.transforms this));
  }

-- opt_parentWorldMatrix, or the identity.
abbrev pub parent_or_unit : (n : Numbers) → Option (Matrix4 n.Number) → Matrix4 n.Number
parent_or_unit n none = unit_matrix n
parent_or_unit n (some m) = m

module _ (f : Reals) (less : f.numbers.Number → f.numbers.Number → Bool) where
  open f use {numbers}
  open numbers use {Number}

  -- The loop over the draw lists, which keeps those whose frustum the box is in.
  unfoldable pub in_frustums :
      Box Number → Matrix4 Number → List (DrawListInfo Number) → List (DrawListInfo Number)
  in_frustums b world [] = []
  in_frustums b world (info ∷ infos) =
      let rest = in_frustums b world infos in
      if in_frustum f less (compose numbers info.projection (compose numbers info.view world)) b
      then info ∷ rest
      else rest

  -- A transform that is to be culled and has no box is drawn in none.
  abbrev pub in_box_frustums :
      Option (Box Number) → Matrix4 Number → List (DrawListInfo Number) → List (DrawListInfo Number)
  in_box_frustums none world infos = []
  in_box_frustums (some b) world infos = in_frustums b world infos

  unfoldable pub remaining :
      Node Number → Matrix4 Number → List (DrawListInfo Number) → List (DrawListInfo Number)
  remaining this world infos =
      if this.cull then in_box_frustums this.bounding_box world infos else infos

  module _ (scene : Scene Number) where
    -- With at most `depth` calls below one another; `none` when they are not enough.
    unfoldable pub traverse :
        ℕ
        → List (DrawListInfo Number)
        → Option (Matrix4 Number)
        → ℕ
        → Drawing Number
        → Option (Drawing Number)
    traverse zero infos parent this s = none
    traverse (suc depth) infos parent this s =
        let node = s.transforms this in
        let world = compose numbers (parent_or_unit numbers parent) node.local_matrix in
        let placed = set_world this world (transform_processed s) in
        let left = remaining node world infos in
        let drawn = each (write_to_draw_lists f less scene world this left) node.shapes placed in
        let below = each_call (traverse depth left (some world)) node.children (some drawn) in
        if is_empty infos || not node.visible
        then some (transform_processed s)
        else if is_empty left
        then some (transform_culled placed)
        else below

    unfoldable pub before : ℕ → TreeTraversal Number → Drawing Number → Option (Drawing Number)
    before depth t s =
        traverse depth t.draw_lists none t.transform (each reset_list t.draw_lists_to_reset s)
