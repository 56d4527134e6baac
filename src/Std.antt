-- ===== src/Std.antt =====
-- crates/ferrijs-std/src: the self-contained data structures and codecs of the standard modules.
mod Examples
pub mod Encoding
pub mod FsGuard
pub mod NodePath
pub mod ReuseList
pub mod Events
pub mod StringDecoder
