-- ===== src/Slip39.antt =====
-- wallet/slip39/shamir.py
pub mod Errors
pub mod Field
pub mod Lagrange
pub mod Polynomial
pub mod Weights
pub mod Gf256
pub mod Shamir
pub mod ShareText
mod Tests
