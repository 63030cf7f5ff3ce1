-- ===== src/Dsh.antt =====
-- internal/instance/dsh_web: the bridge of a dsh instance's web socket, and its sign-in.
pub mod Events
pub mod Auth
pub mod Bridge
pub mod Sessions
