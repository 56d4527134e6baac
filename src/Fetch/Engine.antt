-- ===== src/Fetch/Engine.antt =====
-- crates/ferrijs-fetch/src/engine.rs: the loop that sends a request. Each step answers a new state;
-- what was sent is a list, oldest first, on which the answers of the outside may depend. Timing is
-- left out but for the deadline.
pub mod Model
pub mod Hop
pub mod Pool
pub mod Kept
pub mod Attempts
pub mod Send
pub mod Turn
pub mod Run
pub mod Bounds
pub mod Safety
pub mod Redirects
pub mod Streams
pub mod Examples
