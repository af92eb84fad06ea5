-- ===== src/Devices/Tests.antt =====
-- Runs of the services of the devices app, and instances of the theorems about them.
mod Sample
mod Access
mod Fleet
mod Commands
