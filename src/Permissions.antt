-- ===== src/Permissions.antt =====
-- crates/ferrijs-permissions/src/lib.rs: what a script is allowed to do. One child for each part:
-- the grants, path rules, network rules, facts about the host, the policy, the container of a
-- realm, and the address ranges.
mod Examples
pub mod Allow
pub mod Net
pub mod Path
pub mod Sys
pub mod Policy
pub mod Container
pub mod Ip
