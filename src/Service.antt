-- ===== src/Service.antt =====
-- The kratos service demosvc: internal/{biz,conf,data,server,service,pkg/middleware/localize} and
-- cmd/demosvc.
pub mod Kratos
pub mod Localize
pub mod Greeter
pub mod Auth
pub mod Servers
pub mod Serving
pub mod Http
pub mod Grpc
pub mod AuthGrpc
pub mod AuthHttp
pub mod App
pub mod Tests
