-- ===== src/Tunnel.antt =====
-- client/core/tunnel.py: the streams of a tunnel.
pub mod Stream
pub mod Feeder
pub mod Client
pub mod Pool
mod Tests
