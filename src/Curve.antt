-- ===== src/Curve.antt =====
-- scalajs/o3d/src/main/javascript/o3d-webgl/curve.js and function.js: animation curves.
pub mod Keys
pub mod Search
pub mod Sorted
pub mod Jumps
pub mod Evaluate
pub mod Edits
pub mod FunctionEval
mod Tests
