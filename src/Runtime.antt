-- ===== src/Runtime.antt =====
-- crates/ferrijs/src: what a realm keeps beside the interpreter.
pub mod Deadline
pub mod RealmPool
mod Examples
