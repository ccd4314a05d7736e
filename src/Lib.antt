-- ===== src/Lib.antt =====
-- Verification of the core of Furun VPN: a local HTTP proxy that sends each connection direct or,
-- in the frames of common/protocol.py, through a pool of TLS tunnels to a relay server.
--
-- The parts. client/core/http_proxy.py reads a request and asks client/core/router.py for a
-- connection. The router asks client/core/rule_engine.py, client/core/geoip.py and
-- client/core/circuit_breaker.py which way the host goes, and opens it direct or asks the pool of
-- client/core/tunnel.py for a stream. The frames of the streams go through a tunnel to
-- server/tunnel_server.py, which opens the targets through server/forward_proxy.py.
-- client/core/system_proxy.py points Windows at the HTTP proxy and back.
--
-- The files, with the code that each models.
--   Protocol: common/protocol.py, one definition per function, with the names of the source
--     (`data_frame` is Cmd.DATA). Protocol/Reader: the receive buffers of TunnelClient._read_loop in
--     client/core/tunnel.py (`client_feed`) and TunnelServer._handle_client in
--     server/tunnel_server.py (`server_feed`). Bytes and Bytes/Utf8 write out what `struct` and the
--     UTF-8 codec do.
--   Tunnel/Stream: TunnelStream of client/core/tunnel.py (read, feed_data, close). Tunnel/Feeder: the
--     loop of _TunnelStreamReader._feed in client/core/router.py. Tunnel/Client: TunnelClient of
--     client/core/tunnel.py with its table of streams; `receive` is one round of _read_loop behind
--     the framing.
--   Tunnel/Pool: TunnelPool of client/core/tunnel.py, over tunnels that are up or down.
--     `lose_tunnel` is TunnelClient.disconnect as the pool sees it.
--   Router/Caches: the DNS cache and the memory of rejected targets of client/core/router.py.
--     Router/Routing: Router.route, cut where it awaits into `begin_route`, `dns_answered`, `decide`,
--     `direct_ended` and `pool_answered`, and Router.record_stream_result.
--   HttpProxy: client/core/http_proxy.py, from the first line of a request to the relay. Python's
--     `int`, `split`, `strip` and `upper` are the interface `TextLibrary`.
--   SystemProxy: client/core/system_proxy.py over the values of the registry key.
--   Settings: client/config/settings.py over the settings file, its .tmp and its .bak.
--   Server/ForwardProxy, Server/Relay and Server/DnsCache: server/forward_proxy.py.
--     ForwardProxy.connect_target is cut where it awaits into `begin_connect`, `resolved`, `opened`
--     and `register`; Server/ForwardProxy/Attempts lets any number of calls take these steps in any
--     order. The system resolver and the tests on addresses are the interface `Resolver`.
--   Server/TunnelServer: server/tunnel_server.py. `on_frame` and `on_first_frame` are the branches of
--     _handle_client on a frame; `connected`, `flushed` and `not_connected` are the pieces of
--     _handle_connect between its awaits; `cancel_stream` is a round
--     of the loop in the finally block, and `clear` its end. `handle_events` lets them come in any
--     order; Server/TunnelServer/CleanUp has the finally block, with the tasks that run while it waits.
--   RuleEngine: client/core/rule_engine.py. RuleEngine/Rules has the rules and what they match,
--     RuleEngine/Defaults the built-in tables.
--   GeoIp: client/core/geoip.py (_IntervalSet, is_china_ip, load_china_ip_list).
--   CircuitBreaker: client/core/circuit_breaker.py, with the state file as a field.
--   Net: is_ip_address and ip_in_network of common/utils.py over `Library`, the interface for
--     Python's `ipaddress` and `str` methods; Net/Sample is an instance of it for tests.
--   Prelude: tests, lists, texts, integers, Python's stable sort (Prelude/Sort) and dictionaries in
--     order of insertion (Prelude/Dict).
--
-- State is a record, a method is a function of it, and an exception is `none` or a case of a result
-- type. Bytes and characters are natural numbers; a text is the list of its code points. Times are
-- whole milliseconds, and each reading of the clock is an argument. A coroutine that awaits is a
-- result of its own, and the rest of it a function.
--
-- Fuel. `drain` has one unit more than there are bytes in the buffer, and each round takes nine
-- bytes at least. `pieces` has the length of the data, and each piece takes a byte at least.
-- `bisect_from` has the length of the list, and each round halves the range.
--
-- Not modelled: sockets, TLS, the event loop, logging, JSON text, the GUI, the table in
-- client/config/china_ip_data.py, certificates (common/crypto.py), the semaphore and the write lock
-- of the server (their waits are further places where other steps may come), statistics, and the
-- modules of the client and the server that are not named above.
pub mod Prelude
pub mod Bytes
pub mod Protocol
pub mod Net
pub mod GeoIp
pub mod CircuitBreaker
pub mod RuleEngine
pub mod Tunnel
pub mod Router
pub mod Server
pub mod HttpProxy
pub mod SystemProxy
pub mod Settings
