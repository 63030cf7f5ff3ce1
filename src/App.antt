-- ===== src/App.antt =====
-- internal/app/app.go: the size of a shared terminal, and the handshake of its web socket.
pub mod Tty
pub mod Handshake
pub mod Access
pub mod Diff
pub mod Preview
pub mod Ports
pub mod Stream
mod Tests
