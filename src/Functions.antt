-- ===== src/Functions.antt =====
-- The built-in functions of function/src.
pub mod Intersect
pub mod Join
pub mod Small
pub mod Decrypt
