-- ===== src/Connect.antt =====
-- The connection layer: connect/channel.go, room.go, bucket.go, server.go, rpc.go.
pub mod Heap
pub mod Room
pub mod Bucket
pub mod Server
pub mod Session
pub mod Push
pub mod System
pub mod Start
pub mod Listener
pub mod Writer
