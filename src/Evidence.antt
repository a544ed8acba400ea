-- ===== src/Evidence.antt =====
-- compliance-backend/internal/evidence: Payment Passports and their integrity values.
pub mod Value
pub mod Canon
pub mod Decode
pub mod Tree
pub mod Builder
pub mod Profiles
pub mod Projection
pub mod Jws
