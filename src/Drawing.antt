-- ===== src/Drawing.antt =====
-- Shapes, elements and draw elements as o3d-webgl/transform.js, shape.js and tree_traversal.js write
-- them into draw lists.
pub mod Traverse
pub mod Grows
pub mod Written
pub mod Drawn
pub mod Traversed
mod Tests
use toolbox.Base.{
  ℕ, suc, ◌+◌, Bool, true, false, not, ◌&&◌, List, [], ◌∷◌, ◌++◌, Option, none, some, if◌then◌else◌,
  ◌==◌,
}
use toolbox.Base.Arrays.{remove_from_array}
use toolbox.Ring.{Numbers, Reals}
use toolbox.Math.{Matrix4}
use toolbox.BoundingBox.{Box, in_frustum}
use toolbox.Transform.Matrices.{compose}
use toolbox.Transform.Tree.{Heap}

pub record Element (N : Type 0) : Type 0 where
  pub material : ℕ
  pub bounding_box : Option (Box N)
  pub cull : Bool
  pub draw_elements : List ℕ

-- `owner` is what the setter of owner stored.
pub record DrawElement : Type 0 where
  pub material : Option ℕ
  pub owner : ℕ

-- The objects by their ids; traversal changes none of these. Each draw element has an owner, and each
-- element a material; the ids of draw lists are those of the materials.
pub record Scene (N : Type 0) : Type 0 where
  pub elements_of : ℕ → List ℕ
  pub elements : ℕ → Element N
  pub draw_elements : ℕ → DrawElement
  pub draw_list_of : ℕ → Option ℕ

-- A draw list with the matrices of its draw context.
pub record DrawListInfo (N : Type 0) : Type 0 where
  pub list : ℕ
  pub view : Matrix4 N
  pub projection : Matrix4 N

pub record DrawElementInfo (N : Type 0) : Type 0 where
  pub view : Matrix4 N
  pub projection : Matrix4 N
  pub world : Matrix4 N
  pub view_projection : Matrix4 N
  pub world_view_projection : Matrix4 N
  pub transform : ℕ
  pub draw_element : ℕ

pub record RenderStats : Type 0 where
  pub transforms_processed : ℕ
  pub transforms_culled : ℕ
  pub draw_elements_processed : ℕ
  pub draw_elements_rendered : ℕ
  pub draw_elements_culled : ℕ

-- What a traversal changes.
pub record Drawing (N : Type 0) : Type 0 where
  pub transforms : Heap N
  pub lists : ℕ → List (DrawElementInfo N)
  pub stats : RenderStats

-- A loop that changes a state.
unfoldable pub each : {A S : Type 0} → (A → S → S) → List A → S → S
each g [] s = s
each g (x ∷ l) s = each g l (g x s)

module _ {N : Type 0} where
  abbrev pub with_lists : (ℕ → List (DrawElementInfo N)) → Drawing N → Drawing N
  with_lists l d = record d { lists = l }

  abbrev pub with_stats : RenderStats → Drawing N → Drawing N
  with_stats t d = record d { stats = t }

  -- A push to the array of a draw list.
  abbrev pub push_info : ℕ → DrawElementInfo N → Drawing N → Drawing N
  push_info list e d = with_lists (λ l. if l == list then d.lists l ++ e ∷ [] else d.lists l) d

  abbrev pub count_processed : Drawing N → Drawing N
  count_processed d =
      with_stats (record d.stats { draw_elements_processed = suc d.stats.draw_elements_processed })
        d

  abbrev pub count_rendered : Bool → Drawing N → Drawing N
  count_rendered true d =
      with_stats (record d.stats { draw_elements_rendered = suc d.stats.draw_elements_rendered }) d
  count_rendered false d =
      with_stats (record d.stats { draw_elements_culled = suc d.stats.draw_elements_culled }) d

-- The draw list of the material of a draw element, or of its owner's.
abbrev pub material_or : ℕ → Option ℕ → ℕ
material_or owned none = owned
material_or owned (some m) = m

abbrev pub material_draw_list : {N : Type 0} → Scene N → ℕ → Option ℕ
material_draw_list scene d = scene.draw_list_of (
    material_or (scene.elements (scene.draw_elements d).owner).material
      (scene.draw_elements d).material)

abbrev pub is_list : Option ℕ → ℕ → Bool
is_list none list = false
is_list (some l) list = l == list

module _ (f : Reals) (less : f.numbers.Number → f.numbers.Number → Bool) where
  open f use {numbers}
  open numbers use {Number}

  -- `cull` is set, there is a box, and it is not in the frustum.
  abbrev pub is_culled : Bool → Option (Box Number) → Matrix4 Number → Bool
  is_culled cull none m = false
  is_culled cull (some b) m = cull && not (in_frustum f less m b)

  abbrev pub draw_element_info :
      DrawListInfo Number → Matrix4 Number → ℕ → ℕ → DrawElementInfo Number
  draw_element_info info world transform d =
      let view_projection = compose numbers info.projection info.view in
      record {
        view = info.view;
        projection = info.projection;
        world = world;
        view_projection = view_projection;
        world_view_projection = compose numbers view_projection world;
        transform = transform;
        draw_element = d;
      }

  module _ (scene : Scene Number) (world : Matrix4 Number) (transform : ℕ) where
    -- A round of the loop over the draw lists, with `rendered`.
    unfoldable pub write_to_list :
        ℕ → ℕ → DrawListInfo Number → Bool × Drawing Number → Bool × Drawing Number
    write_to_list element d info (rendered, s) =
        let e = draw_element_info info world transform d in
        let owner = scene.elements element in
        if is_list (material_draw_list scene d) info.list
        then if is_culled owner.cull owner.bounding_box e.world_view_projection
          then (rendered, s)
          else (true, push_info info.list e s)
        else (rendered, s)

    -- A round of the loop over the draw elements of an element.
    unfoldable pub write_draw_element :
        List (DrawListInfo Number) → ℕ → ℕ → Drawing Number → Drawing Number
    write_draw_element infos element d s =
        let r = each (write_to_list element d) infos (false, count_processed s) in
        count_rendered r.0 r.1

    -- A round of the loop over the elements of a shape.
    unfoldable pub write_element : List (DrawListInfo Number) → ℕ → Drawing Number → Drawing Number
    write_element infos element =
        each (write_draw_element infos element) (scene.elements element).draw_elements

    unfoldable pub write_to_draw_lists :
        List (DrawListInfo Number) → ℕ → Drawing Number → Drawing Number
    write_to_draw_lists infos shape = each (write_element infos) (scene.elements_of shape)
