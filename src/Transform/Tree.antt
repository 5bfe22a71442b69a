-- ===== src/Transform/Tree.antt =====
-- The tree of transforms in o3d-webgl/transform.js: parents, children, shapes and world matrices.
pub mod Consistent
pub mod Reached
pub mod Cycle
use toolbox.Base.{
  ℕ, zero, suc, Bool, true, false, List, [], ◌∷◌, ◌++◌, Option, none, some, if◌then◌else◌, ◌==◌,
}
use toolbox.Ring.{Numbers}
use toolbox.Math.{Matrix4, array3, array4}
use toolbox.BoundingBox.{Box, new_box}
use toolbox.Base.Arrays.{remove_from_array}

-- A transform, by the ids of the objects it refers to.
pub record Node (N : Type 0) : Type 0 where
  pub parent : Option ℕ
  pub children : List ℕ
  pub shapes : List ℕ
  pub local_matrix : Matrix4 N
  pub world_matrix : Matrix4 N
  pub visible : Bool
  pub bounding_box : Option (Box N)
  pub cull : Bool

abbrev pub Heap : Type 0 → Type 0
Heap N = ℕ → Node N

-- What follows a call, if it returns.
abbrev pub and_then : {A : Type 0} → Option A → (A → Option A) → Option A
and_then none f = none
and_then (some x) f = f x

-- The loop over the children, with a call for each.
unfoldable pub collect_each : (ℕ → List ℕ → Option (List ℕ)) → List ℕ → List ℕ → Option (List ℕ)
collect_each g [] result = some result
collect_each g (c ∷ cs) result = and_then (g c result) (collect_each g cs)

-- The identity, as the code writes it out.
abbrev pub unit_matrix : (n : Numbers) → Matrix4 n.Number
unit_matrix n =
    array4 (array4 n.one n.zero n.zero n.zero) (array4 n.zero n.one n.zero n.zero)
      (array4 n.zero n.zero n.one n.zero) (array4 n.zero n.zero n.zero n.one)

-- The constructor of Transform without arguments.
unfoldable pub new_transform : (n : Numbers) → Node n.Number
new_transform n = record {
  parent = none;
  children = [];
  shapes = [];
  local_matrix = unit_matrix n;
  world_matrix = unit_matrix n;
  visible = true;
  bounding_box = some (
      new_box n.zero (some (array3 (n.neg n.one) (n.neg n.one) (n.neg n.one)))
        (some (array3 n.one n.one n.one)));
  cull = false;
}

module _ {N : Type 0} where
  abbrev pub write : Heap N → ℕ → Node N → Heap N
  write h i node j = if j == i then node else h j

  abbrev pub with_children : List ℕ → Node N → Node N
  with_children l t = record t { children = l }

  abbrev pub with_parent : Option ℕ → Node N → Node N
  with_parent p t = record t { parent = p }

  abbrev pub with_shapes : List ℕ → Node N → Node N
  with_shapes l t = record t { shapes = l }

  abbrev pub with_world : Matrix4 N → Node N → Node N
  with_world m t = record t { world_matrix = m }

  unfoldable pub add_child : ℕ → ℕ → Heap N → Heap N
  add_child this child h = write h this (with_children ((h this).children ++ child ∷ []) (h this))

  -- The first step of the setter of `parent`.
  unfoldable pub leave_parent : Option ℕ → ℕ → Heap N → Heap N
  leave_parent none this h = h
  leave_parent (some old) this h =
      write h old (with_children (remove_from_array (h old).children this) (h old))

  -- The last step of the setter of `parent`.
  unfoldable pub join_parent : Option ℕ → ℕ → Heap N → Heap N
  join_parent none this h = h
  join_parent (some p) this h = add_child p this h

  -- The setter of `parent`.
  unfoldable pub set_parent : ℕ → Option ℕ → Heap N → Heap N
  set_parent this p h =
      let left = leave_parent (h this).parent this h in
      let linked = write left this (with_parent p (left this)) in join_parent p this linked

  unfoldable pub add_shape : ℕ → ℕ → Heap N → Heap N
  add_shape this shape h = write h this (with_shapes ((h this).shapes ++ shape ∷ []) (h this))

  unfoldable pub remove_shape : ℕ → ℕ → Heap N → Heap N
  remove_shape this shape h =
      write h this (with_shapes (remove_from_array (h this).shapes shape) (h this))

  -- getTransformInTreeRecursive_, with at most `depth` calls below one another; `none` when they are
  -- not enough.
  unfoldable pub collect : ℕ → Heap N → ℕ → List ℕ → Option (List ℕ)
  collect zero h root result = none
  collect (suc depth) h root result =
      collect_each (collect depth h) (h root).children (result ++ root ∷ [])

  unfoldable pub get_transforms_in_tree : ℕ → Heap N → ℕ → Option (List ℕ)
  get_transforms_in_tree depth h root = collect depth h root []
