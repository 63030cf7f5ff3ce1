-- ===== src/Portal.antt =====
-- internal/portal/portal.go: the portal's sign-in protection.
pub mod Csrf
mod Tests
pub mod Auth
