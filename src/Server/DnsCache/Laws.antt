-- ===== src/Server/DnsCache/Laws.antt =====
-- The DNS cache of server/forward_proxy.py stays small and answers with what was stored.
use vpnself.Prelude.{
  ℕ, ◌+◌, ◌-◌, ◌≤◌, ◌<◌, ◌≡◌, false, some, none, if◌then◌else◌, if_both, ltb, leb, lt→ltb, leb→le,
  length, Text, text_eq, beq_refl, arith,
}
use vpnself.Prelude.Dict.{
  Dict, get, remove, keep, IsUnique, keep-IsUnique, put-IsUnique, length-put, get-put,
}
use vpnself.Prelude.Dict.Evict.{evict, length-evict, evict-IsUnique}
use vpnself.Server.DnsCache.{
  server_dns_ttl, server_dns_cache_max, dns_cache_get, make_room, dns_cache_put,
}

-- There is room for one more entry, and each key is listed once.
abbrev HasRoom : Dict Text (ℕ × Text) → Type 0
HasRoom d = (length d < server_dns_cache_max) × IsUnique d

not_full : (n : ℕ) → leb server_dns_cache_max n ≡ false → n < server_dns_cache_max
not_full n h = ground (arith, h)

make_room-HasRoom : (now : ℕ) (d : Dict Text (ℕ × Text)) → IsUnique d → HasRoom (make_room now d)
unfolding make_room
make_room-HasRoom now d u =
    let live = keep (λ (entry : ℕ × Text). ltb now entry.0) d in
    let u' : IsUnique live = keep-IsUnique (λ (entry : ℕ × Text). ltb now entry.0) d u in
    let n = length live - server_dns_cache_max + 1 in
    if_both HasRoom (leb server_dns_cache_max (length d))
      (if leb server_dns_cache_max (length live) then evict (λ entry. entry.0) n live else live) d
      (λ _.
        if_both HasRoom (leb server_dns_cache_max (length live)) (evict (λ entry. entry.0) n live)
          live
          (λ h. (
            omega (
              arith,
              leb→le server_dns_cache_max (length live) h,
              length-evict (λ (entry : ℕ × Text). entry.0) n live u'
                  (omega (arith, leb→le server_dns_cache_max (length live) h)),
            ),
            evict-IsUnique (λ entry. entry.0) n live u',
          ))
          (λ h. (not_full (length live) h, u')))
      (λ h. (not_full (length d) h, u))

-- After `_dns_cache_put` the cache is within its capacity with one entry for each host, and until
-- the time is over `_dns_cache_get` answers with the address that was stored, however full the
-- cache was.
pub dns_cache_put_lem :
    (now t : ℕ) (host ip : Text) (d : Dict Text (ℕ × Text))
    → IsUnique d
    → t < now + server_dns_ttl
    → (length (dns_cache_put now host ip d) ≤ server_dns_cache_max)
      × IsUnique (dns_cache_put now host ip d)
      × ((dns_cache_get t host (dns_cache_put now host ip d)).0 ≡ some ip)
unfolding dns_cache_put dns_cache_get
dns_cache_put_lem now t host ip d u h =
    let room = make_room-HasRoom now d u in
    (
      ground (arith, room.0, length-put host (now + server_dns_ttl, ip) (make_room now d)),
      put-IsUnique host (now + server_dns_ttl, ip) (make_room now d) room.1,
      ground (
        arith,
        get-put host host (now + server_dns_ttl, ip) (make_room now d),
        beq_refl host,
        lt→ltb t (now + server_dns_ttl) h,
      ),
    )

-- The branches of `_dns_cache_get`.
pub dns_cache_get-absent :
    (now : ℕ) (host : Text) (d : Dict Text (ℕ × Text))
    → get host d ≡ none
    → dns_cache_get now host d ≡ (none, d)
unfolding dns_cache_get
dns_cache_get-absent now host d q = ground (arith, q)

pub dns_cache_get-present :
    (now : ℕ) (host : Text) (entry : ℕ × Text) (d : Dict Text (ℕ × Text))
    → get host d ≡ some entry
    → dns_cache_get now host d
      ≡ (if ltb now entry.0 then (some entry.1, d) else (none, remove host d))
unfolding dns_cache_get
dns_cache_get-present now host entry d q = ground (arith, q)
