-- ===== src/Runtime.antt =====
-- runtime/: the strict ahead-of-time runtime of runtime/src/call_frame.cpp and the records of
-- runtime/include/aot_runtime_v1.h.
pub mod Metadata
pub mod Program
pub mod Modules
pub mod Entry
pub mod Tables
pub mod Fastcall
pub mod Closures
pub mod Strings
pub mod Frames
pub mod Registers
