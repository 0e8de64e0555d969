-- ===== src/Core.antt =====
-- The modules of core/.
pub mod WorldHandler
pub mod ConnectionHandler
pub mod Scheduler
pub mod WebServer
