-- ===== src/OAuth.antt =====
-- The OAuth2 programs: the authorization server, its client and callback, the OpenID Connect relying
-- party and the resource server behind it.
pub mod Http
pub mod Server
pub mod Gin
pub mod Relying
pub mod Routes
pub mod RoutesTests
pub mod Resource
pub mod Protected
pub mod ProtectedTests
pub mod Client
pub mod Browser
pub mod ClientTests
pub mod Tests
