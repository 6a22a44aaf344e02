-- ===== src/Validation.antt =====
-- The validation and sanitisation of inputs, gubbi/validation.py.
pub mod Topic
pub mod Grammar
pub mod Harden
pub mod Title
mod Tests
