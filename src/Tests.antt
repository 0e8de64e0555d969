-- ===== src/Tests.antt =====
-- Runs on concrete input, and the theorems at such input.
mod Streams
mod Texts
mod Packets
mod Worlds
mod Schedules
mod Messages
mod Events
mod Timers
mod Items
mod Networks
mod Requests
mod Commands
mod Sessions
