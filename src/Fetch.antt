-- ===== src/Fetch.antt =====
-- crates/ferrijs-fetch/src: the network guard, the header list and the cookies of `fetch`.
mod Examples
pub mod Cookie
pub mod Engine
pub mod Guard
pub mod Headers
pub mod Multipart
