-- ===== src/Server/ForwardProxy/Public.antt =====
-- The guard of server/forward_proxy.py against requests into the server's own network: what
-- `_resolve` lets through, and what the DNS cache holds.
use vpnself.Prelude.{
  ◌-◌, ◌+◌, ◌>>=◌, >>=-eq-some, text_beq, ℕ, ◌≡◌, sym, false, Option, none, some, [], ◌∷◌, All, ltb,
  leb, if◌then◌else◌, Text, text_eq, nat_eq, arith, Bool-cases, Option-cases, inl, inr, length,
  if_both,
}
use mathlib.Core.Path.{subst}
use vpnself.Prelude.Dict.{Dict, get, remove, keep, All-put, All-remove, All-keep_of}
use vpnself.Net.{Library, Address, in_network}
use vpnself.Prelude.Dict.Evict.{evict, All-evict}
use vpnself.Server.DnsCache.Laws.{dns_cache_get-absent, dns_cache_get-present}
use vpnself.Server.DnsCache.{
  server_dns_ttl, server_dns_cache_max, dns_cache_get, dns_cache_put, make_room,
}
use vpnself.Server.ForwardProxy.{
  ForwardProxy, Resolver, ssrf_blocked, refused, checked_ip, found_addresses, first_answer, resolve,
}

module _ (py : Library) (net : Resolver) where
  -- An address outside every range that the server must not reach.
  abbrev pub IsPublicAddress : Address → Type 0
  IsPublicAddress a =
      (net.is_private a ≡ false)
      × (net.is_loopback a ≡ false)
      × (net.is_link_local a ≡ false)
      × (net.is_reserved a ≡ false)
      × (net.is_multicast a ≡ false)
      × (net.is_unspecified a ≡ false)
      × All (λ n. in_network a n ≡ false) ssrf_blocked

  -- A text that is such an address.
  abbrev pub IsPublic : Text → Type 0
  IsPublic ip = (a : Address) × (py.ip_address ip ≡ some a) × IsPublicAddress a

  IsPublicAddress-of_refused : (a : Address) → refused py net a ≡ false → IsPublicAddress a
  unfolding refused
  IsPublicAddress-of_refused a h = ground (arith, h)

  checked_ip-IsPublic : (q ip : Text) → checked_ip py net q ≡ some ip → IsPublic ip
  unfolding checked_ip
  checked_ip-IsPublic q ip h =
      let (a, parsed, tested) =
        >>=-eq-some (py.ip_address q) (λ a. if refused py net a then none else some q) ip h in
      elim (Bool-cases (refused py net a)) [
        | inl bad ↦ absurd (ground (arith, tested, bad))
        | inr good ↦
            let same : q ≡ ip = ground (arith, tested, good) in
            (
              a,
              subst (λ t. py.ip_address t ≡ some a) same parsed,
              IsPublicAddress-of_refused a good,
            )
      ]

  pub resolve-IsPublic : (host ip : Text) → resolve py net host ≡ some ip → IsPublic ip
  unfolding resolve
  resolve-IsPublic host ip h =
      let (info, _, rest) =
        >>=-eq-some (found_addresses (net.getaddrinfo host))
          (λ info. first_answer info >>= checked_ip py net) ip h in
      let (q, _, checked) = >>=-eq-some (first_answer info) (checked_ip py net) ip rest in
      checked_ip-IsPublic q ip checked

  -- Every address in the DNS cache is public.
  abbrev pub CacheIsPublic : ForwardProxy → Type 0
  CacheIsPublic p = All (λ kv. IsPublic kv.1.1) p.dns_cache

  -- The cache alone.
  abbrev pub EntriesArePublic : Dict Text (ℕ × Text) → Type 0
  EntriesArePublic d = All (λ kv. IsPublic kv.1.1) d

  get-IsPublic :
      (host : Text) (entry : ℕ × Text) (d : Dict Text (ℕ × Text))
      → EntriesArePublic d
      → get host d ≡ some entry
      → IsPublic entry.1
  get-IsPublic host entry [] a h = absurd cc
  get-IsPublic host entry ((k, v) ∷ d) a h = elim (Bool-cases (text_beq k host)) [
    | inl e ↦ let same : v ≡ entry = ground (arith, h, e) in subst (λ w. IsPublic w.1) same a.0
    | inr e ↦ get-IsPublic host entry d a.1 (ground (arith, h, e))
  ]

  -- What a look-up leaves: a cache of public addresses, and a public answer.
  abbrev pub AnswerIsPublic : Option Text × Dict Text (ℕ × Text) → Type 0
  AnswerIsPublic r = EntriesArePublic r.1 × ((ip : Text) → r.0 ≡ some ip → IsPublic ip)

  pub dns_cache_get-IsPublic :
      (now : ℕ) (host : Text) (d : Dict Text (ℕ × Text))
      → EntriesArePublic d
      → AnswerIsPublic (dns_cache_get now host d)
  dns_cache_get-IsPublic now host d a = elim (Option-cases (get host d)) [
    | inl q ↦ subst AnswerIsPublic (sym (dns_cache_get-absent now host d q)) (a, λ ip h. absurd cc)
    | inr (entry, q) ↦ subst AnswerIsPublic (sym (dns_cache_get-present now host entry d q)) (
        if_both AnswerIsPublic (ltb now entry.0) (some entry.1, d) (none, remove host d)
          (λ _. (
            a,
            λ ip h. let e : entry.1 ≡ ip = cc in subst IsPublic e (get-IsPublic host entry d a q),
          ))
          (λ _. (All-remove (λ kv. IsPublic kv.1.1) host d a, λ ip h. absurd cc)))
  ]

  make_room-IsPublic :
      (now : ℕ) (d : Dict Text (ℕ × Text)) → EntriesArePublic d → EntriesArePublic (make_room now d)
  unfolding make_room
  make_room-IsPublic now d a =
      let live = keep (λ (entry : ℕ × Text). ltb now entry.0) d in
      let n = length live - server_dns_cache_max + 1 in
      let kept : EntriesArePublic live =
        All-keep_of (λ kv. IsPublic kv.1.1) (λ (entry : ℕ × Text). ltb now entry.0) d a in
      if_both EntriesArePublic (leb server_dns_cache_max (length d))
        (if leb server_dns_cache_max (length live) then evict (λ entry. entry.0) n live else live) d
        (λ _.
          if_both EntriesArePublic (leb server_dns_cache_max (length live))
            (evict (λ entry. entry.0) n live) live
            (λ _. All-evict (λ kv. IsPublic kv.1.1) (λ (entry : ℕ × Text). entry.0) n live kept)
            (λ _. kept))
        (λ _. a)

  pub dns_cache_put-IsPublic :
      (now : ℕ) (host ip : Text) (d : Dict Text (ℕ × Text))
      → EntriesArePublic d
      → IsPublic ip
      → EntriesArePublic (dns_cache_put now host ip d)
  unfolding dns_cache_put
  dns_cache_put-IsPublic now host ip d a h =
      All-put (λ (entry : ℕ × Text). IsPublic entry.1) host (now + server_dns_ttl, ip)
        (make_room now d) h (make_room-IsPublic now d a)
