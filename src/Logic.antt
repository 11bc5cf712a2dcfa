-- ===== src/Logic.antt =====
-- The logic layer: logic/rpc.go, logic/publish.go and logic/dao/user.go.
pub mod Exec
pub mod Redis
pub mod Keys
pub mod World
pub mod Account
pub mod Room
pub mod Start
