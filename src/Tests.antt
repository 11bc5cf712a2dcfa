-- ===== src/Tests.antt =====
-- Runs of the theorems at concrete inputs.
pub mod Frames
pub mod Rooms
pub mod Buckets
pub mod Sessions
pub mod Memory
pub mod Accounts
pub mod System
pub mod Logins
pub mod Writers
pub mod Admission
pub mod Published
pub mod Instances
pub mod Counting
pub mod Races
pub mod Rejoined
pub mod Clients
pub mod Routes
pub mod Started
pub mod Listeners
pub mod Channels
pub mod Websockets
pub mod Sockets
