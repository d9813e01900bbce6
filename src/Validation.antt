-- ===== src/Validation.antt =====
-- src/validation.c: the checks on the fields of a POST request.
pub mod Fields
pub mod Keys
pub mod Blocks
pub mod Actions
mod Tests
