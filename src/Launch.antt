-- ===== src/Launch.antt =====
-- The command lines that start the debugger: src/wslLauncher.ts, src/dockerLauncher.ts and
-- src/sshLauncher.ts.
pub mod Options
pub mod Shell
pub mod Commands
pub mod Spawn
mod Tests
