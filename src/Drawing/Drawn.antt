-- ===== src/Drawing/Drawn.antt =====
-- The traversal of o3d-webgl/transform.js and tree_traversal.js beside a description of what is drawn.
use toolbox.Base.{
  ℕ, zero, suc, ◌<◌, ◌≡◌, ◌↔◌, ◌⊎◌, inl, inr, refl, sym, ap, ◌∙◌, Bool, true, not, ◌||◌, Bool-cases,
  List, [], ◌∷◌, ◌++◌, Option, none, some, arith, if◌then◌else◌, ◌==◌,
}
use mathlib.Core.List.Memᴰ
use mathlib.Core.List.{Memᴰ}
use mathlib.Core.Path.{subst}
use toolbox.Ring.{Reals}
use toolbox.Math.{Matrix4}
use toolbox.BoundingBox.{Box}
use toolbox.Transform.Matrices.{compose}
use toolbox.Transform.Tree.{Heap, Node}
use toolbox.Drawing.{Scene, DrawListInfo, DrawElementInfo, Drawing, each, write_to_draw_lists}
use toolbox.Drawing.Traverse.{
  is_empty, each_call, transform_processed, transform_culled, set_world, parent_or_unit,
  in_frustums, in_box_frustums, remaining, traverse,
}
use toolbox.Drawing.Grows.{strip, SameNodes, Entries, both, each_of, flat, flat-nil, flat-Memᴰ}
use toolbox.Drawing.Written.{of_shape, of_shape-nil}

-- Children have smaller ranks: there is no cycle.
abbrev pub IsRankedDown : {N : Type 0} → (ℕ → ℕ) → Heap N → Type 0
IsRankedDown rank h = (a c : ℕ) → Memᴰ c (h a).children → rank c < rank a

pub nil_of_is_empty : {A : Type 0} (l : List A) → is_empty l ≡ true → l ≡ []
nil_of_is_empty [] e = refl
nil_of_is_empty (x ∷ l) e = cc

module _ (f : Reals) (less : f.numbers.Number → f.numbers.Number → Bool)
    (scene : Scene f.numbers.Number) (h : Heap f.numbers.Number) where
  open f use {numbers}
  open numbers use {Number}

  abbrev pub world_of : Matrix4 Number → ℕ → Matrix4 Number
  world_of parent a = compose numbers parent (h a).local_matrix

  abbrev pub left_of : Matrix4 Number → ℕ → List (DrawListInfo Number) → List (DrawListInfo Number)
  left_of parent a = remaining f less (h a) (world_of parent a)

  -- Down from `a`, under a parent with a world matrix and with some draw lists, one comes by visible
  -- transforms to `b`, with this world matrix and these draw lists left by the culling.
  pub data Visits
      : Matrix4 Number
        → List (DrawListInfo Number)
        → ℕ
        → ℕ
        → Matrix4 Number
        → List (DrawListInfo Number)
        → Type 0 where
    here :
        {parent : Matrix4 Number} {infos : List (DrawListInfo Number)} {a : ℕ}
        → (h a).visible ≡ true
        → Visits parent infos a a (world_of parent a) (left_of parent a infos)
    under :
        {parent world : Matrix4 Number} {infos left : List (DrawListInfo Number)} {a b c : ℕ}
        → (h a).visible ≡ true
        → Memᴰ c (h a).children
        → Visits (world_of parent a) (left_of parent a infos) c b world left
        → Visits parent infos a b world left

  -- The entries for the transforms from `a` down, at most `depth` of them below one another: those of
  -- a visible transform's shapes, then those of each of its children.
  unfoldable pub drawn : ℕ → Matrix4 Number → List (DrawListInfo Number) → ℕ → Entries Number
  drawn zero parent infos a l = []
  drawn (suc depth) parent infos a l =
      let left = left_of parent a infos in
      let own =
        flat (h a).shapes (λ shape. of_shape f less scene (world_of parent a) a left shape l) in
      let below = flat (h a).children (λ c. drawn depth (world_of parent a) left c l) in
      if (h a).visible then own ++ below else []

  in_box_frustums-nil :
      (b : Option (Box Number)) (world : Matrix4 Number) → in_box_frustums f less b world [] ≡ []
  unfolding in_frustums
  in_box_frustums-nil none world = refl
  in_box_frustums-nil (some b) world = refl

  remaining-nil :
      (node : Node Number) (world : Matrix4 Number) → remaining f less node world [] ≡ []
  unfolding remaining
  remaining-nil node world = elim (Bool-cases node.cull) [
    | inr t ↦ rw t refl
    | inl t ↦ rw t (in_box_frustums-nil node.bounding_box world)
  ]

  -- Without draw lists nothing is drawn.
  own-nil :
      (shapes : List ℕ) (world : Matrix4 Number) (a l : ℕ)
      → flat shapes (λ shape. of_shape f less scene world a [] shape l) ≡ []
  own-nil shapes world a l = flat-nil shapes _ (λ shape. of_shape-nil f less scene world a shape l)

  drawn-nil : (depth : ℕ) (parent : Matrix4 Number) (a l : ℕ) → drawn depth parent [] a l ≡ []
  unfolding drawn
  drawn-nil zero parent a l = refl
  drawn-nil (suc depth) parent a l = elim (Bool-cases (h a).visible) [
    | inr t ↦ rw t refl
    | inl t ↦
        rw
          (
            remaining-nil (h a) (world_of parent a),
            own-nil (h a).shapes (world_of parent a) a l,
            flat-nil (h a).children _ (λ c. drawn-nil depth (world_of parent a) c l),
            t,
          )
          refl
  ]

  -- What `traverse` does with a transform whose fields, but for the world matrix, are those of a node.
  abbrev pub visit :
      ℕ
      → List (DrawListInfo Number)
      → Option (Matrix4 Number)
      → ℕ
      → Drawing Number
      → Node Number
      → Option (Drawing Number)
  visit depth infos parent this s node =
      let world = compose numbers (parent_or_unit numbers parent) node.local_matrix in
      let placed = set_world this world (transform_processed s) in
      let left = remaining f less node world infos in
      let drawn = each (write_to_draw_lists f less scene world this left) node.shapes placed in
      let below =
        each_call (traverse f less scene depth left (some world)) node.children (some drawn) in
      if is_empty infos || not node.visible
      then some (transform_processed s)
      else if is_empty left
      then some (transform_culled placed)
      else below

  pub set_world-SameNodes :
      (this : ℕ) (world : Matrix4 Number) (s : Drawing Number)
      → SameNodes s.transforms (set_world this world s).transforms
  set_world-SameNodes this world s i = elim (Bool-cases (i == this)) [
    | inl t ↦ let same : this ≡ i = ground arith in rw t (ap (λ j. strip (s.transforms j)) same)
    | inr t ↦ rw t refl
  ]

  -- Nothing is drawn where the draw lists are no more, or the transform is not visible.
  pub drawn-stopped :
      (depth : ℕ) (parent : Matrix4 Number) (infos : List (DrawListInfo Number)) (a l : ℕ)
      → (is_empty infos || not (h a).visible) ≡ true
      → drawn depth parent infos a l ≡ []
  unfolding drawn
  drawn-stopped zero parent infos a l t = refl
  drawn-stopped (suc depth) parent infos a l t = elim (Bool-cases (h a).visible) [
    | inr v ↦ rw v refl
    | inl v ↦
        let none_left : infos ≡ [] = nil_of_is_empty infos (ground arith) in
        rw none_left (drawn-nil (suc depth) parent a l)
  ]

  -- A visible transform with draw lists left draws its own, and then its children theirs.
  pub drawn-both :
      (depth : ℕ) (parent : Matrix4 Number) (infos : List (DrawListInfo Number)) (a : ℕ)
      → (h a).visible ≡ true
      → (l : ℕ)
      → drawn (suc depth) parent infos a l
        ≡ both
            (each_of
              (h a).shapes
              (of_shape f less scene (world_of parent a) a (left_of parent a infos)))
            (each_of (h a).children (drawn depth (world_of parent a) (left_of parent a infos)))
            l
  unfolding drawn
  drawn-both depth parent infos a v l = rw v refl

  pub drawn-culled :
      (depth : ℕ) (parent : Matrix4 Number) (infos : List (DrawListInfo Number)) (a l : ℕ)
      → (h a).visible ≡ true
      → left_of parent a infos ≡ []
      → drawn (suc depth) parent infos a l ≡ []
  drawn-culled depth parent infos a l v empty =
      drawn-both depth parent infos a v l
      ∙ (rw
          (
            empty,
            own-nil (h a).shapes (world_of parent a) a l,
            flat-nil (h a).children _ (λ c. drawn-nil depth (world_of parent a) c l),
          )
          refl)

  -- An entry for the shapes of a transform that is visited from `a`.
  abbrev pub IsDrawn :
      Matrix4 Number → List (DrawListInfo Number) → ℕ → ℕ → DrawElementInfo Number → Type 0
  IsDrawn parent infos a l e =
      (b : ℕ) × (world : Matrix4 Number) × (left : List (DrawListInfo Number)) × Visits parent infos
        a b world left
      × Memᴰ e (each_of (h b).shapes (of_shape f less scene world b left) l)

  Visits-visible :
      {parent : Matrix4 Number} {infos : List (DrawListInfo Number)} {a b : ℕ}
      {world : Matrix4 Number} {left : List (DrawListInfo Number)}
      → Visits parent infos a b world left
      → (h a).visible ≡ true
  Visits-visible (here v) = v
  Visits-visible (under v m visit) = v

  -- The entry is the transform's own, or one of those below.
  Visits-either :
      {parent : Matrix4 Number} {infos : List (DrawListInfo Number)} {a b : ℕ}
      {world : Matrix4 Number} {left : List (DrawListInfo Number)} (l : ℕ)
      (e : DrawElementInfo Number)
      → Visits parent infos a b world left
      → Memᴰ e (each_of (h b).shapes (of_shape f less scene world b left) l)
      → Memᴰ e (
          each_of
            (h a).shapes
            (of_shape f less scene (world_of parent a) a (left_of parent a infos))
            l)
        ⊎ ((c : ℕ) × Memᴰ c (h a).children
            × IsDrawn (world_of parent a) (left_of parent a infos) c l e)
  Visits-either l e (here v) own = inl own
  Visits-either l e (under v m visit) own = inr (_, m, (_, _, _, visit, own))

  -- The entries are those of the transforms that are visited.
  pub drawn-Visits :
      (rank : ℕ → ℕ)
      → IsRankedDown rank h
      → (depth : ℕ) (parent : Matrix4 Number) (infos : List (DrawListInfo Number)) (a : ℕ)
      → rank a < depth
      → (l : ℕ) (e : DrawElementInfo Number)
      → Memᴰ e (drawn depth parent infos a l) ↔ IsDrawn parent infos a l e
  drawn-Visits rank ranked zero parent infos a r l e = absurd (omega arith)
  drawn-Visits rank ranked (suc depth) parent infos a r l e =
      let world = world_of parent a in
      let left = left_of parent a infos in
      let own = each_of (h a).shapes (of_shape f less scene world a left) l in
      let ih = λ (c : ℕ) (m : Memᴰ c (h a).children).
        let lower = ranked a c m in drawn-Visits rank ranked depth world left c (omega arith) l e in
      elim (Bool-cases (h a).visible) [
        | inr v ↦
            let nothing = drawn-stopped (suc depth) parent infos a l (ground arith) in
            (
              λ m. absurd (Memᴰ.not-nil (subst (Memᴰ e) nothing m)),
              λ (b, w, left', visit, m). let v' = Visits-visible visit in cc,
            )
        | inl v ↦
            let split = drawn-both depth parent infos a v l in
            (
              λ m. elim (Memᴰ.append_cases own (subst (Memᴰ e) split m)) [
                | inl n ↦ (a, world, left, here v, n)
                | inr n ↦
                    let (c, k, n') = (flat-Memᴰ e (h a).children _).0 n in
                    let (b, w, left', visit, n'') = (ih c k).0 n' in
                    (b, w, left', under v k visit, n'')
              ],
              λ (b, w, left', visit, m).
                  subst (Memᴰ e) (sym split) (elim (Visits-either l e visit m) [
                    | inl n ↦ Memᴰ.append_left _ n
                    | inr (c, k, d) ↦
                        Memᴰ.append_right own
                          ((flat-Memᴰ e (h a).children _).1 (c, k, (ih c k).1 d))
                  ]),
            )
      ]
