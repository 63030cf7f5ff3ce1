-- ===== src/Opencode.antt =====
-- internal/instance/opencode_web: which directory the requests to an opencode instance name.
pub mod Scope
