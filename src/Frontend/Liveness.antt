-- ===== src/Frontend/Liveness.antt =====
-- frontend/package_liveness.h: the pass that finds the functions of a closed package that nothing can
-- reach, and blanks them out of the sources without moving a line.
pub mod Syntax
pub mod State
pub mod Eval
pub mod Exec
pub mod Collect
pub mod Rewrite
pub mod Run
pub mod Lines
pub mod Places
pub mod Untouched
mod Runs
