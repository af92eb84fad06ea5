-- ===== src/Devices.antt =====
-- apps/devices: players, their activation, their credentials and the commands that they are sent.
pub mod Models
pub mod Store
pub mod Lifecycle
pub mod Administration
pub mod Activation
pub mod Credentials
pub mod Commands
pub mod Codes
pub mod SingleUse
pub mod Requests
pub mod Writes
pub mod Revoked
pub mod Limit
pub mod Delivery
pub mod Rotation
pub mod Families
pub mod Telemetry
pub mod Sequence
mod Tests
