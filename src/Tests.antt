-- ===== src/Tests.antt =====
-- The tests, and the theorems at concrete inputs.
pub mod Lint
pub mod Brackets
pub mod Cleansing
pub mod Lengths
pub mod Files
pub mod Nesting
pub mod Checks
pub mod Settings
