-- ===== src/Transform/World.antt =====
-- getUpdatedWorldMatrix of o3d-webgl/transform.js.
pub mod Carried
use toolbox.Base.{ℕ, zero, suc, Option, none, some}
use toolbox.Ring.{Numbers}
use toolbox.Math.{Matrix4}
use toolbox.Transform.Tree.{Node, Heap, write, with_world, unit_matrix}
use toolbox.Transform.Matrices.{compose}

module _ (n : Numbers) where
  open n use {Number}

  -- What is done with the parent's world matrix, when the call for it has returned.
  abbrev pub place :
      ℕ → Option (Matrix4 Number × Heap Number) → Option (Matrix4 Number × Heap Number)
  place this none = none
  place this (some (parent_world, h)) =
      let world = compose n parent_world (h this).local_matrix in
      some (world, write h this (with_world world (h this)))

  -- The world matrix of the parent, by the call `update` for it.
  abbrev pub above :
      (ℕ → Heap Number → Option (Matrix4 Number × Heap Number))
      → Option ℕ
      → Heap Number
      → Option (Matrix4 Number × Heap Number)
  above update none h = some (unit_matrix n, h)
  above update (some p) h = update p h

  -- The world matrix that is returned and the transforms after the call, with at most `depth` calls
  -- below one another; `none` when they are not enough.
  unfoldable pub get_updated_world_matrix :
      ℕ → ℕ → Heap Number → Option (Matrix4 Number × Heap Number)
  get_updated_world_matrix zero this h = none
  get_updated_world_matrix (suc depth) this h =
      place this (above (get_updated_world_matrix depth) (h this).parent h)
