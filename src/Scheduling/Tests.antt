-- ===== src/Scheduling/Tests.antt =====
-- Runs of the scheduling services, and instances of the theorems about them.
mod Sample
mod Changes
mod Answers
