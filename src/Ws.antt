-- ===== src/Ws.antt =====
-- The websocket programs: an echo server, its client, and a server that broadcasts.
pub mod Echo
pub mod Client
pub mod Broadcast
pub mod Tests
