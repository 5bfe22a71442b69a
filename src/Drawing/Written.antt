-- ===== src/Drawing/Written.antt =====
-- writeToDrawLists of o3d-webgl/shape.js: which entries it adds to the draw lists.
use toolbox.Base.{
  ℕ, ◌≡◌, inl, inr, refl, sym, Bool, true, false, not, ◌&&◌, Bool-cases, List, [], ◌∷◌, ◌==◌,
  if◌then◌else◌,
}
use mathlib.Core.List.{append-nil}
use toolbox.Ring.{Reals}
use toolbox.Math.{Matrix4}
use toolbox.Transform.Matrices.{compose}
use toolbox.Drawing.{
  Scene, DrawListInfo, DrawElementInfo, Drawing, each, push_info, count_processed, count_rendered,
  material_draw_list, is_list, is_culled, draw_element_info, write_to_list, write_draw_element,
  write_element, write_to_draw_lists,
}
use toolbox.Drawing.Grows.{Entries, Grows, each_of, flat-nil, grow_none, each-Grows}

push_info-Grows :
    {N : Type 0} (list : ℕ) (x : DrawElementInfo N) (s : Drawing N)
    → Grows s (push_info list x s) (λ l. if l == list then x ∷ [] else [])
push_info-Grows list x s = (
  λ i. refl,
  λ l. elim (Bool-cases (l == list)) [
    | inl t ↦ rw t refl
    | inr t ↦ rw t (sym (append-nil (s.lists l)))
  ],
)

count_rendered-lists :
    {N : Type 0} (b : Bool) (s : Drawing N)
    → ((count_rendered b s).lists ≡ s.lists) × ((count_rendered b s).transforms ≡ s.transforms)
count_rendered-lists true s = (refl, refl)
count_rendered-lists false s = (refl, refl)

module _ (f : Reals) (less : f.numbers.Number → f.numbers.Number → Bool)
    (scene : Scene f.numbers.Number) (world : Matrix4 f.numbers.Number) (transform : ℕ) where
  open f use {numbers}
  open numbers use {Number}

  -- The entry of a draw element of an element for a draw list, if the list is the material's and the
  -- element is not culled.
  abbrev pub for_info : ℕ → ℕ → DrawListInfo Number → Entries Number
  for_info element d info l =
      let view_projection = compose numbers info.projection info.view in
      let x : DrawElementInfo Number = record {
        view = info.view;
        projection = info.projection;
        world = world;
        view_projection = view_projection;
        world_view_projection = compose numbers view_projection world;
        transform = transform;
        draw_element = d;
      } in
      let owner = scene.elements element in
      if is_list (material_draw_list scene d) info.list
        && not (is_culled f less owner.cull owner.bounding_box x.world_view_projection)
        && (l == info.list)
      then x ∷ []
      else []

  -- The entries for a shape and draw lists.
  abbrev pub of_shape : List (DrawListInfo Number) → ℕ → Entries Number
  of_shape infos shape = each_of (scene.elements_of shape) (λ element.
      each_of (scene.elements element).draw_elements (λ d. each_of infos (for_info element d)))

  -- Without draw lists there are none.
  pub of_shape-nil : (shape l : ℕ) → of_shape [] shape l ≡ []
  of_shape-nil shape l =
      flat-nil (scene.elements_of shape) _
        (λ element. flat-nil (scene.elements element).draw_elements _ (λ d. refl))

  write_to_list-Grows :
      (element d : ℕ) (info : DrawListInfo Number) (r : Bool × Drawing Number)
      → Grows r.1
          (write_to_list f less scene world transform element d info r).1
          (for_info element d info)
  unfolding write_to_list
  write_to_list-Grows element d info (rendered, s) =
      let x = draw_element_info f less info world transform d in
      let owner = scene.elements element in
      elim (Bool-cases (is_list (material_draw_list scene d) info.list)) [
        | inr t ↦ rw t (grow_none s s (λ l. []) (λ i. refl) (λ l. refl) (λ l. refl))
        | inl t ↦
            elim (Bool-cases
              (is_culled f less owner.cull owner.bounding_box x.world_view_projection)) [
                | inl c ↦ rw (t, c) (grow_none s s (λ l. []) (λ i. refl) (λ l. refl) (λ l. refl))
                | inr c ↦ rw (t, c) (push_info-Grows info.list x s)
              ]
      ]

  write_draw_element-Grows :
      (infos : List (DrawListInfo Number)) (element d : ℕ) (s : Drawing Number)
      → Grows s
          (write_draw_element f less scene world transform infos element d s)
          (each_of infos (for_info element d))
  unfolding write_draw_element
  write_draw_element-Grows infos element d s =
      let r =
        each (write_to_list f less scene world transform element d) infos
          (false, count_processed s) in
      let g =
        each-Grows (λ r. r.1) (write_to_list f less scene world transform element d)
          (for_info element d) (write_to_list-Grows element d) infos (false, count_processed s) in
      let counted = count_rendered-lists r.0 r.1 in rw (counted.0, counted.1) g

  pub write_to_draw_lists-Grows :
      (infos : List (DrawListInfo Number)) (shape : ℕ) (s : Drawing Number)
      → Grows s
          (write_to_draw_lists f less scene world transform infos shape s)
          (of_shape infos shape)
  unfolding write_to_draw_lists write_element
  write_to_draw_lists-Grows infos shape =
      each-Grows (λ s. s) (write_element f less scene world transform infos)
        (λ element.
          each_of (scene.elements element).draw_elements (λ d. each_of infos (for_info element d)))
        (λ element.
          each-Grows (λ s. s) (write_draw_element f less scene world transform infos element)
            (λ d. each_of infos (for_info element d)) (write_draw_element-Grows infos element)
            (scene.elements element).draw_elements)
        (scene.elements_of shape)
