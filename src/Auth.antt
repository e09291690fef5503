-- ===== src/Auth.antt =====
-- backend/internal/auth/rbac.go: the roles, what they may call, and the tokens that stand for them.
pub mod Rbac
pub mod Ranks
mod Tests
