-- ===== src/Daemon.antt =====
-- The daemon of mom/__init__.py: its configuration, the directory for its plots, its main loop and
-- its RPC server.
pub mod PlotDir
pub mod Config
pub mod Loop
pub mod Server
pub mod Api
