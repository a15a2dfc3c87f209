-- ===== src/Tests.antt =====
-- Tests: the definitions on concrete inputs, and the theorems applied at them.
pub mod Data
mod Redaction
mod Paths
mod Runner
mod Reports
mod Settings
mod Unpacking
mod Builtins
mod Frames
mod Sessions
mod Exchanges
mod Containers
