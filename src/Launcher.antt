-- ===== src/Launcher.antt =====
-- The launcher of server/internal/launcher, which runs the server as a child process.
pub mod Supervision
