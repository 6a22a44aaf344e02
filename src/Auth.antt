-- ===== src/Auth.antt =====
-- Authentication and authorization: gubbi/auth/, gubbi/middleware/ and gubbi/api/v1/auth.py.
pub mod Scope
pub mod Strategies
pub mod Middleware
pub mod Admission
pub mod Origin
mod Tests
