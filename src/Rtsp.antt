-- ===== src/Rtsp.antt =====
-- streaming_lib/rtsp_lib: messages, headers, transports, sessions, and the server.
pub mod Definitions
pub mod Headers
pub mod Transport
pub mod Methods
pub mod Text
pub mod Message
pub mod Server
pub mod Network
pub mod Options
pub mod Client
