-- ===== src/Server/DnsCache.antt =====
-- The DNS cache of server/forward_proxy.py. Times are milliseconds.
pub mod Laws
use vpnself.Prelude.{
  ℕ, ◌+◌, ◌-◌, ◌*◌, Option, none, some, if◌then◌else◌, ltb, leb, length, Text, text_eq, nat_eq,
}
use vpnself.Prelude.Dict.{Dict, get, put, remove, keep}
use vpnself.Prelude.Dict.Evict.{evict}

-- SERVER_DNS_TTL, in milliseconds, and SERVER_DNS_CACHE_MAX.
abbrev pub server_dns_ttl : ℕ
server_dns_ttl = 300 * 1000

abbrev pub server_dns_cache_max : ℕ
server_dns_cache_max = 2048

-- `_dns_cache_get` at `now`: the address, and the cache without an expired entry.
unfoldable pub dns_cache_get : ℕ → Text → Dict Text (ℕ × Text) → Option Text × Dict Text (ℕ × Text)
dns_cache_get now host d = elim (get host d) [
  | none ↦ (none, d)
  | some entry ↦ if ltb now entry.0 then (some entry.1, d) else (none, remove host d)
]

-- The room that `_dns_cache_put` makes before it writes.
unfoldable pub make_room : ℕ → Dict Text (ℕ × Text) → Dict Text (ℕ × Text)
make_room now d =
    if leb server_dns_cache_max (length d)
    then (let live = keep (λ entry. ltb now entry.0) d in
        if leb server_dns_cache_max (length live)
        then evict (λ entry. entry.0) (length live - server_dns_cache_max + 1) live
        else live)
    else d

-- `_dns_cache_put`
unfoldable pub dns_cache_put : ℕ → Text → Text → Dict Text (ℕ × Text) → Dict Text (ℕ × Text)
dns_cache_put now host ip d = put host (now + server_dns_ttl, ip) (make_room now d)
