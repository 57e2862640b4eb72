-- ===== src/Web.antt =====
-- The web API of internal/handlers: the handlers of api.go and auth.go over the world of
-- Tools/World.antt. A request's body is given as it is decoded, `none` where decoding fails.
pub mod Reply
pub mod Session
pub mod Me
pub mod NewGroup
pub mod Groups
pub mod Routes
pub mod Published
