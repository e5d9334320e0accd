-- ===== src/Rtp.antt =====
-- streaming_lib/rtp_lib: packets, sequence numbers, forward error correction and the end systems.
pub mod Sequence
pub mod Spirit
pub mod Packet
pub mod Fec
pub mod Sender
pub mod Receiver
