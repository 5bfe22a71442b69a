-- ===== src/Drawing/Traversed.antt =====
-- `traverse` and `before` of o3d-webgl/transform.js and o3d-webgl/tree_traversal.js: the runs return, and
-- what they draw.
use toolbox.Base.{
  ℕ, zero, suc, ◌<◌, ◌≡◌, ◌↔◌, inl, inr, refl, sym, ap, ◌∙◌, Bool, true, false, not, ◌||◌,
  Bool-cases, List, [], ◌∷◌, ◌++◌, Option, none, some, arith, if◌then◌else◌, ◌==◌,
}
use mathlib.Core.List.{Memᴰ}
use mathlib.Core.Path.{subst}
use toolbox.Ring.{Reals}
use toolbox.Math.{Matrix4}
use toolbox.Transform.Tree.{Heap, unit_matrix}
use toolbox.Drawing.{Scene, DrawListInfo, DrawElementInfo, Drawing, each, write_to_draw_lists}
use toolbox.Drawing.Traverse.{
  is_empty, transform_processed, transform_culled, set_world, parent_or_unit, remaining, traverse,
  TreeTraversal, reset_list, before,
}
use toolbox.Drawing.Grows.{
  SameNodes, Draws, each_of, grow_none, grow_both, each-Grows, each_call-Draws,
}
use toolbox.Drawing.Written.{of_shape, write_to_draw_lists-Grows}
use toolbox.Drawing.Drawn.{
  IsRankedDown, world_of, left_of, drawn, drawn-stopped, drawn-culled, drawn-both, IsDrawn,
  drawn-Visits, set_world-SameNodes, visit, nil_of_is_empty,
}

-- A draw list is among these.
abbrev pub names : List ℕ → ℕ → Bool
names [] l = false
names (x ∷ xs) l = (l == x) || names xs l

module _ (f : Reals) (less : f.numbers.Number → f.numbers.Number → Bool)
    (scene : Scene f.numbers.Number) (h : Heap f.numbers.Number) where
  open f use {numbers}
  open numbers use {Number}

  module _ (rank : ℕ → ℕ) (ranked : IsRankedDown rank h) where
    -- Calls of `traverse` of a depth return and draw what is to be drawn.
    abbrev Returns : ℕ → Type 0
    Returns depth =
        (infos : List (DrawListInfo Number)) (parent : Option (Matrix4 Number)) (a : ℕ)
        (s : Drawing Number)
        → rank a < depth
        → SameNodes h s.transforms
        → Draws s (traverse f less scene depth infos parent a s)
            (drawn f less scene h depth (parent_or_unit numbers parent) infos a)

    visit-Draws :
        (depth : ℕ) (infos : List (DrawListInfo Number)) (parent : Option (Matrix4 Number)) (a : ℕ)
        (s : Drawing Number)
        → Returns depth
        → rank a < suc depth
        → SameNodes h s.transforms
        → Draws s
            (visit f less scene h depth infos parent a s (h a))
            (drawn f less scene h (suc depth) (parent_or_unit numbers parent) infos a)
    visit-Draws depth infos parent a s below r same =
        let over = parent_or_unit numbers parent in
        let world = world_of f less scene h over a in
        let left = left_of f less scene h over a infos in
        let P = drawn f less scene h (suc depth) over infos a in
        let processed = transform_processed s in
        let placed = set_world a world processed in
        let kept = set_world-SameNodes f less scene h a world processed in
        elim (Bool-cases (is_empty infos || not (h a).visible)) [
          | inl t ↦ rw t (
            processed,
            refl,
            grow_none s processed P (λ i. refl) (λ l. refl)
                (λ l. drawn-stopped f less scene h (suc depth) over infos a l t),
          )
          | inr t ↦
              let v : (h a).visible ≡ true = ground arith in
              elim (Bool-cases (is_empty left)) [
                | inl t' ↦
                    rw (t, t')
                      (
                        transform_culled placed,
                        refl,
                        grow_none s (transform_culled placed) P kept (λ l. refl)
                            (λ l.
                              drawn-culled f less scene h depth over infos a l v
                                (nil_of_is_empty left t')),
                      )
                | inr t' ↦
                    let own = each_of (h a).shapes (of_shape f less scene world a left) in
                    let after =
                      each (write_to_draw_lists f less scene world a left) (h a).shapes placed in
                    let g =
                      each-Grows (λ u. u) (write_to_draw_lists f less scene world a left)
                        (of_shape f less scene world a left)
                        (write_to_draw_lists-Grows f less scene world a left) (h a).shapes placed in
                    let still : SameNodes s.transforms after.transforms = λ i. g.0 i ∙ kept i in
                    let (s', e, g') =
                      each_call-Draws h (traverse f less scene depth left (some world))
                        (drawn f less scene h depth world left) (h a).children
                        (λ c u m k.
                          let lower = ranked a c m in below left (some world) c u (omega arith) k)
                        after (λ i. still i ∙ same i) in
                    let whole =
                      grow_both s after s' own
                        (each_of (h a).children (drawn f less scene h depth world left))
                        (still, g.1) g' in
                    rw (t, t')
                      (
                        s',
                        e,
                        (
                          whole.0,
                          λ l.
                              whole.1 l
                              ∙ ap (s.lists l ++◌)
                                  (sym (drawn-both f less scene h depth over infos a v l)),
                        ),
                      )
              ]
        ]

    traverse-Draws : (depth : ℕ) → Returns depth
    unfolding traverse remaining
    traverse-Draws zero infos parent a s r same = absurd (omega arith)
    traverse-Draws (suc depth) infos parent a s r same =
        subst
          (λ node.
            Draws s (visit f less scene h depth infos parent a s node)
              (drawn f less scene h (suc depth) (parent_or_unit numbers parent) infos a))
          (sym (same a)) (visit-Draws depth infos parent a s (traverse-Draws depth) r same)

  -- The resets empty the lists that are named.
  reset_list-lists :
      (lists : List ℕ) (s : Drawing Number) (l : ℕ)
      → (each reset_list lists s).lists l ≡ (if names lists l then [] else s.lists l)
  unfolding each reset_list
  reset_list-lists [] s l = refl
  reset_list-lists (x ∷ xs) s l =
      let below = reset_list-lists xs (reset_list x s) l in
      elim (Bool-cases (l == x)) [
        | inr t ↦ rw t (rw t at below)
        | inl t ↦
            rw t (elim (Bool-cases (names xs l)) [
              | inl u ↦ rw u at below
              | inr u ↦ rw (u, t) at below
            ])
      ]

  reset_list-SameNodes :
      (lists : List ℕ) (s : Drawing Number)
      → SameNodes s.transforms (each reset_list lists s).transforms
  unfolding each reset_list
  reset_list-SameNodes [] s i = refl
  reset_list-SameNodes (x ∷ xs) s i = reset_list-SameNodes xs (reset_list x s) i

module _ (f : Reals) (less : f.numbers.Number → f.numbers.Number → Bool)
    (scene : Scene f.numbers.Number) where
  open f use {numbers}
  open numbers use {Number}

  -- Where the children of a transform have smaller ranks, so that no transform is below itself, and
  -- the depth of calls exceeds the rank of the root, TreeTraversal.before returns. To each draw list,
  -- which is emptied before if it is one to reset, it appends, transform by transform from the root
  -- down, for each shape, element and draw element in order, one entry for each registered draw list
  -- that is this list and that of the material, that the culling of the transforms on the way leaves,
  -- and in whose frustum the element's box is if the element is to be culled; it appends nothing
  -- else. These entries are just those for the shapes of the transforms that one reaches from the
  -- root by visible transforms, with the world matrix composed of the local matrices on the way. Of
  -- the transforms only world matrices change.
  pub before-Drawn :
      (rank : ℕ → ℕ) (depth : ℕ) (t : TreeTraversal Number) (s : Drawing Number)
      → IsRankedDown rank s.transforms
      → rank t.transform < depth
      → (s' : Drawing Number) × (before f less scene depth t s ≡ some s')
        × SameNodes s.transforms s'.transforms
        × ((l : ℕ)
            → s'.lists l
              ≡ (if names t.draw_lists_to_reset l then [] else s.lists l)
                ++ drawn f less scene s.transforms depth
                    (unit_matrix numbers)
                    t.draw_lists
                    t.transform
                    l)
        × ((l : ℕ) (e : DrawElementInfo Number)
            → Memᴰ e (
                drawn f less scene s.transforms depth
                  (unit_matrix numbers)
                  t.draw_lists
                  t.transform
                  l)
              ↔ IsDrawn f less scene s.transforms
                  (unit_matrix numbers)
                  t.draw_lists
                  t.transform
                  l
                  e)
  unfolding before
  before-Drawn rank depth t s ranked enough =
      let h = s.transforms in
      let cleared = each reset_list t.draw_lists_to_reset s in
      let same = reset_list-SameNodes f less scene h t.draw_lists_to_reset s in
      let (s', e, g) =
        traverse-Draws f less scene h rank ranked depth t.draw_lists none t.transform cleared enough
          same in
      let entries = drawn f less scene h depth (unit_matrix numbers) t.draw_lists t.transform in
      (
        s',
        e,
        λ i. g.0 i ∙ same i,
        λ l.
            g.1 l
            ∙ ap (λ x. x ++ entries l) (reset_list-lists f less scene h t.draw_lists_to_reset s l),
        drawn-Visits f less scene h rank ranked depth (unit_matrix numbers) t.draw_lists t.transform
            enough,
      )
