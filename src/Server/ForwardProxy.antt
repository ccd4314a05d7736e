-- ===== src/Server/ForwardProxy.antt =====
-- server/forward_proxy.py. `connect_target` awaits the resolver, the connection and two writes, and
-- other calls run meanwhile: it is cut there into functions. The wait for the semaphore is one more
-- such place. Times are milliseconds.

pub mod Keys
pub mod Attempts
pub mod Public
pub mod Safety
pub mod Admission
use vpnself.Prelude.{
  ℕ, ◌+◌, ◌*◌, ◌/◌, ◌%◌, ◌^◌, Bool, true, false, ◌&&◌, ◌||◌, Option, none, some, List, [], ◌∷◌,
  if◌then◌else◌, leb, length, any, Text, codes, text_eq, nat_eq, ◌>>=◌,
}
use vpnself.Prelude.Dict.{Dict, get, put, remove, keys}
use vpnself.Server.Relay.{Sent, connect_ok, connect_fail, ForwardRelay, new_relay, close_relay}
use vpnself.Server.DnsCache.{dns_cache_get, dns_cache_put}
use vpnself.Net.{Library, Address, Network, in_network}

pub record ForwardProxy : Type 0 where
  pub max_connections : ℕ
  pub active_relays : Dict ℕ ForwardRelay
  pub total_connections : ℕ
  pub dns_cache : Dict Text (ℕ × Text)

-- `ForwardProxy(max_connections)`
abbrev pub new_proxy : ℕ → ForwardProxy
new_proxy max_connections = record {
  max_connections = max_connections;
  active_relays = [];
  total_connections = 0;
  dns_cache = [];
}

-- `_make_key` and `_split_key`: shifts and masks by 32 bits.
unfoldable pub make_key : ℕ → ℕ → ℕ
make_key client_id stream_id = client_id * 2 ^ 32 + stream_id % 2 ^ 32

unfoldable pub split_key : ℕ → ℕ × ℕ
split_key key = (key / 2 ^ 32, key % 2 ^ 32)

unfoldable pub get_relay : ℕ → ℕ → ForwardProxy → Option ForwardRelay
get_relay client_id stream_id p = get (make_key client_id stream_id) p.active_relays

-- `remove_relay`: the relay that it closes, and the proxy.
unfoldable pub remove_relay : ℕ → ℕ → ForwardProxy → Option ForwardRelay × ForwardProxy
remove_relay client_id stream_id p =
    let key = make_key client_id stream_id in
    elim (get key p.active_relays) [
      | none ↦ (none, p)
      | some r ↦ (some (close_relay r), record p { active_relays = remove key p.active_relays })
    ]

-- The loop of `close_all` over the keys: the relays that it closes, and the proxy.
abbrev pub close_keys : List ℕ → ForwardProxy → List ForwardRelay × ForwardProxy
close_keys [] p = ([], p)
close_keys (key ∷ ks) p =
    let (client_id, stream_id) = split_key key in
    let (closed, p') = remove_relay client_id stream_id p in
    let (more, p'') = close_keys ks p' in (elim closed [ none ↦ more | some r ↦ r ∷ more ], p'')

unfoldable pub close_all : ForwardProxy → List ForwardRelay × ForwardProxy
close_all p = close_keys (keys p.active_relays) p

-- _SSRF_BLOCKED: 100.64.0.0/10 and 0.0.0.0/8.
abbrev pub ssrf_blocked : List Network
ssrf_blocked =
    record { is_v4 = true; first = 1681915904; last = 1686110207 }
    ∷ record { is_v4 = true; first = 0; last = 16777215 }
    ∷ []

-- What `getaddrinfo` does: addresses, an OSError, or the UnicodeError of a name that has no IDNA
-- encoding.
pub data Resolution : Type 0 where
  addresses : List Text → Resolution
  os_error unicode_error : Resolution

-- What the server uses of `socket` and of the properties of an address.
pub record Resolver : Type 0 where
  pub getaddrinfo : Text → Resolution
  pub is_private : Address → Bool
  pub is_loopback : Address → Bool
  pub is_link_local : Address → Bool
  pub is_reserved : Address → Bool
  pub is_multicast : Address → Bool
  pub is_unspecified : Address → Bool

-- What a step of `connect_target` asks for next; `raises` where it ends with an exception.
pub data Next : Type 0 where
  refuse : Sent → Next
  resolve_host : Next
  open_address : Text → Next
  raises : Next

-- How `open_connection` ends.
pub data Opened : Type 0 where
  connected : Opened
  timed_out : Opened
  broken : Text → Opened

abbrev pub found_addresses : Resolution → Option (List Text)
found_addresses (addresses info) = some info
found_addresses os_error = none
found_addresses unicode_error = none

abbrev pub is_unicode_error : Resolution → Bool
is_unicode_error (addresses info) = false
is_unicode_error os_error = false
is_unicode_error unicode_error = true

-- `info[0][4][0]`, and none for `not info`.
abbrev pub first_answer : List Text → Option Text
first_answer [] = none
first_answer (ip ∷ _) = some ip

-- `connect_target` on the resolver's answer.
abbrev pub with_answer : ℕ → ℕ → Text → Option Text → ForwardProxy → Next × ForwardProxy
with_answer now stream_id host none p =
    (refuse (connect_fail stream_id (codes "DNS resolution failed")), p)
with_answer now stream_id host (some ip) p =
    (open_address ip, record p { dns_cache = dns_cache_put now host ip p.dns_cache })

module _ (py : Library) (net : Resolver) where
  -- The test in `_resolve`.
  unfoldable pub refused : Address → Bool
  refused a =
      net.is_private a
      || net.is_loopback a
      || net.is_link_local a
      || net.is_reserved a
      || net.is_multicast a
      || net.is_unspecified a
      || any (λ n. in_network a n) ssrf_blocked

  -- The end of `_resolve`, on an answer. An AF_INET answer is always an address.
  unfoldable pub checked_ip : Text → Option Text
  checked_ip ip = do addr ← py.ip_address ip; if refused addr then none else some ip

  -- `_resolve`; none is an exception.
  unfoldable pub resolve : Text → Option Text
  resolve host = do
    info ← found_addresses (net.getaddrinfo host)
    ip ← first_answer info
    checked_ip ip

  -- `connect_target` up to the resolver.
  unfoldable pub begin_connect : ℕ → ℕ → Text → ForwardProxy → Next × ForwardProxy
  begin_connect now stream_id host p =
      if leb p.max_connections (length p.active_relays)
      then (refuse (connect_fail stream_id (codes "server at capacity")), p)
      else let (hit, cache) = dns_cache_get now host p.dns_cache in
        let p' : ForwardProxy = record p { dns_cache = cache } in
        (elim hit [ none ↦ resolve_host | some ip ↦ open_address ip ], p')

  -- Behind the resolver; `in_time` is false where `wait_for` gives up. A UnicodeError is a ValueError,
  -- which the `except` lets through: no frame is sent.
  unfoldable pub resolved : Bool → ℕ → ℕ → Text → ForwardProxy → Next × ForwardProxy
  resolved in_time now stream_id host p =
      if in_time && is_unicode_error (net.getaddrinfo host)
      then (raises, p)
      else with_answer now stream_id host (if in_time then resolve host else none) p

-- Behind `open_connection`: the frame to send, the relay, and the proxy.
unfoldable pub opened : Opened → ℕ → ForwardProxy → Sent × Option ForwardRelay × ForwardProxy
opened connected stream_id p = (
  connect_ok stream_id,
  some (new_relay stream_id),
  record p { total_connections = p.total_connections + 1 },
)
opened timed_out stream_id p = (connect_fail stream_id (codes "Connection timeout"), none, p)
opened (broken e) stream_id p = (connect_fail stream_id e, none, p)

-- Behind the write of CONNECT_OK.
unfoldable pub register : ℕ → ℕ → ForwardRelay → ForwardProxy → ForwardProxy
register client_id stream_id r p = record p {
  active_relays = put (make_key client_id stream_id) r p.active_relays;
}
