-- ===== src/Drawing/Tests.antt =====
-- The traversal of o3d-webgl/transform.js and o3d-webgl/tree_traversal.js run on a small tree over the integers.
use toolbox.Base.{
  ℕ, zero, suc, ◌≡◌, ◌↔◌, refl, false, List, [], ◌∷◌, ◌++◌, Option, none, some, arith,
  if◌then◌else◌, ◌==◌,
}
use mathlib.Core.List.Memᴰ
use mathlib.Core.List.{Memᴰ}
use toolbox.Base.Int.{ℤ, pos, ltb_ℤ, ◌+ℤ◌, ◌-ℤ◌, ◌*ℤ◌}
use toolbox.Ring.Integers.{integers, turns}
use toolbox.Math.{Matrix4, array4}
use toolbox.Transform.Matrices.{compose}
use toolbox.Transform.Tree.{Heap, unit_matrix, new_transform}
use toolbox.Drawing.{
  Scene, DrawListInfo, DrawElementInfo, Drawing, each, write_to_draw_lists, write_element,
  write_draw_element, write_to_list,
}
use toolbox.Drawing.Traverse.{
  TreeTraversal, before, traverse, remaining, each_call, register_draw_list, reset_list,
}
use toolbox.Drawing.Grows.{SameNodes}
use toolbox.Drawing.Drawn.{IsRankedDown, drawn, IsDrawn}
use toolbox.Drawing.Traversed.{names, before-Drawn}

abbrev moved : Matrix4 ℤ
moved =
    array4 (array4 (pos 1) (pos 0) (pos 0) (pos 0)) (array4 (pos 0) (pos 1) (pos 0) (pos 0))
      (array4 (pos 0) (pos 0) (pos 1) (pos 0)) (array4 (pos 5) (pos 6) (pos 7) (pos 1))

-- Transform 0 has the child 1, which has shape 2; all others are alone.
abbrev pair : Heap ℤ
pair zero = record (new_transform integers) { children = 1 ∷ []; local_matrix = moved }
pair (suc zero) = record (new_transform integers) {
  parent = some 0;
  shapes = 2 ∷ [];
  local_matrix = moved;
}
pair (suc (suc t)) = new_transform integers

-- Shape 2 has element 3 with draw element 4, whose material is drawn by list 9.
abbrev scene : Scene ℤ
scene = record {
  elements_of = λ shape. if shape == 2 then 3 ∷ [] else [];
  elements = λ e. record {
    material = 8;
    bounding_box = none;
    cull = false;
    draw_elements = if e == 3 then 4 ∷ [] else [];
  };
  draw_elements = λ d. record { material = none; owner = 3 };
  draw_list_of = λ m. if m == 8 then some 9 else none;
}

abbrev info : DrawListInfo ℤ
info = record { list = 9; view = moved; projection = unit_matrix integers }

abbrev traversal : TreeTraversal ℤ
traversal = record { transform = 0; draw_lists_to_reset = 9 ∷ []; draw_lists = info ∷ [] }

abbrev blank : Drawing ℤ
blank = record {
  transforms = pair;
  lists = λ l. [];
  stats = record {
    transforms_processed = 0;
    transforms_culled = 0;
    draw_elements_processed = 0;
    draw_elements_rendered = 0;
    draw_elements_culled = 0;
  };
}

registered :
    register_draw_list info none
      (record { transform = 0; draw_lists_to_reset = []; draw_lists = [] })
    ≡ traversal
unfolding register_draw_list
registered = refl

abbrev rank : ℕ → ℕ
rank t = if t == 0 then 1 else 0

pair-IsRankedDown : IsRankedDown rank pair
unfolding new_transform
pair-IsRankedDown zero c m = let same = Memᴰ.eq_of_singleton m in ground arith
pair-IsRankedDown (suc zero) c m = absurd (Memᴰ.not-nil m)
pair-IsRankedDown (suc (suc a)) c m = absurd (Memᴰ.not-nil m)

before-Drawn_example :
    (s' : Drawing ℤ) × (before turns ltb_ℤ scene 2 traversal blank ≡ some s')
    × SameNodes blank.transforms s'.transforms
    × ((l : ℕ)
        → s'.lists l
          ≡ (if names traversal.draw_lists_to_reset l then [] else blank.lists l)
            ++ drawn turns ltb_ℤ scene blank.transforms 2
                (unit_matrix integers)
                traversal.draw_lists
                traversal.transform
                l)
    × ((l : ℕ) (e : DrawElementInfo ℤ)
        → Memᴰ e (
            drawn turns ltb_ℤ scene blank.transforms 2
              (unit_matrix integers)
              traversal.draw_lists
              traversal.transform
              l)
          ↔ IsDrawn turns ltb_ℤ scene blank.transforms
              (unit_matrix integers)
              traversal.draw_lists
              traversal.transform
              l
              e)
before-Drawn_example =
    before-Drawn turns ltb_ℤ scene rank 2 traversal blank pair-IsRankedDown (omega arith)

abbrev lists_of : Option (Drawing ℤ) → ℕ → List (DrawElementInfo ℤ)
lists_of none l = []
lists_of (some d) l = d.lists l

abbrev worlds : List (DrawElementInfo ℤ) → List (Matrix4 ℤ)
worlds [] = []
worlds (e ∷ l) = e.world ∷ worlds l

drawn_once :
    worlds (lists_of (before turns ltb_ℤ scene 2 traversal blank) 9)
    ≡ array4
        (array4 (pos 1) (pos 0) (pos 0) (pos 0))
        (array4 (pos 0) (pos 1) (pos 0) (pos 0))
        (array4 (pos 0) (pos 0) (pos 1) (pos 0))
        (array4 (pos 10) (pos 12) (pos 14) (pos 1))
      ∷ []
unfolding before traverse remaining each_call reset_list each write_to_draw_lists write_element
    write_draw_element write_to_list compose new_transform ◌*ℤ◌ ◌+ℤ◌ ◌-ℤ◌
drawn_once = refl
