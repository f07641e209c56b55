-- ===== src/Tests.antt =====
-- The theorems at concrete inputs.
mod Queues
mod Start
mod Leave
mod Texts
mod Tables
mod Calls
mod Play
