-- ===== src/Frontend.antt =====
-- frontend/: the adapter that turns pinned Luau protos into a snapshot image, and the package
-- liveness pass.
pub mod Wire
pub mod Imports
pub mod Protos
pub mod Constants
pub mod Liveness
