-- ===== src/Api.antt =====
-- The HTTP layer: api/rpc/rpc.go, api/handler, api/router/router.go and
-- tools/response.go. What gin binds of a request's body is an argument: the form, or an error.
pub mod Rpc
pub mod Response
pub mod User
pub mod Push
pub mod Session
pub mod Router
