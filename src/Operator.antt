-- ===== src/Operator.antt =====
-- internal/operator: what the operator resolves from its resources.
pub mod Profiles
