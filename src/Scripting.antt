-- ===== src/Scripting.antt =====
-- scripting/: the timers of scripts.
pub mod ScriptScheduler
