-- ===== src/Server.antt =====
-- The server: server/forward_proxy.py and server/tunnel_server.py.
pub mod Relay
pub mod DnsCache
pub mod ForwardProxy
pub mod TunnelServer
mod Tests
