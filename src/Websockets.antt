-- ===== src/Websockets.antt =====
-- app/websockets
pub mod Manager
pub mod Payload
pub mod Server
pub mod Service
