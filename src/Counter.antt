-- ===== src/Counter.antt =====
-- scalajs/o3d/src/main/javascript/o3d-webgl/counter.js: counters, their callbacks, their manager.
pub mod Callbacks
pub mod Advance
pub mod Manager
mod Tests
