-- ===== src/Transform.antt =====
-- o3d-webgl/transform.js: the matrices of a transform, and the tree of transforms.
pub mod Matrices
pub mod Local
pub mod SameAsMath
pub mod Tree
pub mod World
mod Tests
