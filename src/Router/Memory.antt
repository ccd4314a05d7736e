-- ===== src/Router/Memory.antt =====
-- What client/core/router.py answers from its two caches after it has written to them.
use vpnself.Prelude.{
  is_some, ℕ, ◌+◌, ◌≤◌, ◌≡◌, ap, ◌∙◌, inl, inr, true, Option, none, some, if◌then◌else◌, ltb, leb,
  length, Text, text_beq, pair_beq, text_eq, pair_eq, arith, Option-cases,
}
use vpnself.Prelude.Dict.{Dict, get, put, keep, IsUnique, get-put, put-IsUnique}
use vpnself.Router.Caches.{
  dns_cache_ttl, dns_cache_max, proxy_fail_ttl, proxy_fail_max, prune_cache, prune_cache_bounded,
  prune_cache_live, fresh, cached_resolve, prune_dns_cache, remember_dns, prune_proxy_fail,
  remember_fail, fails_fast,
}

-- The address of an entry of the DNS cache.
abbrev address : Option (ℕ × Text) → Option Text
address none = none
address (some entry) = some entry.1

cached_resolve-fresh :
    (t : ℕ) (j : Text) (d : Dict Text (ℕ × Text))
    → (cached_resolve t j d).0 ≡ address (fresh (λ entry. entry.0) t (get j d))
unfolding cached_resolve
cached_resolve-fresh t j d = elim (Option-cases (get j d)) [
  | inl q ↦ ground (arith, q)
  | inr (v, q) ↦ ground (arith, q)
]

-- Where the cache has room for all the entries that have not expired, a look-up at `t` after
-- `route` has stored an address answers with it until its time is over, and every other host as
-- before.
pub remember_dns-cached_resolve :
    (host ip j : Text) (now t_prune t : ℕ) (d : Dict Text (ℕ × Text))
    → IsUnique d
    → t_prune ≤ t
    → leb
        (length (keep (λ entry. ltb t_prune entry.0) (put host (now + dns_cache_ttl, ip) d)))
        dns_cache_max
      ≡ true
    → (cached_resolve t j (remember_dns host ip now t_prune d)).0 ≡ (
        if text_beq host j
        then (if ltb t (now + dns_cache_ttl) then some ip else none)
        else (cached_resolve t j d).0)
unfolding remember_dns prune_dns_cache
remember_dns-cached_resolve host ip j now t_prune t d u le room =
    let d' = put host (now + dns_cache_ttl, ip) d in
    cached_resolve-fresh t j (prune_cache (λ (entry : ℕ × Text). entry.0) dns_cache_max t_prune d')
    ∙ ap address (
        prune_cache_live (λ (entry : ℕ × Text). entry.0) dns_cache_max t_prune t j d'
          (put-IsUnique host (now + dns_cache_ttl, ip) d u) le room
        ∙ ap (fresh (λ (entry : ℕ × Text). entry.0) t) (get-put j host (now + dns_cache_ttl, ip) d))
    ∙ ground (arith, cached_resolve-fresh t j d)

fails_fast-fresh :
    (t : ℕ) (k : Text × ℕ) (d : Dict (Text × ℕ) ℕ)
    → fails_fast t k d ≡ is_some (fresh (λ expiry. expiry) t (get k d))
unfolding fails_fast
fails_fast-fresh t k d = elim (Option-cases (get k d)) [
  | inl q ↦ ground (arith, q)
  | inr (v, q) ↦ ground (arith, q)
]

-- Where the memory has room for all the entries that have not expired, a target that the server has
-- rejected fails at once until its time is over, and every other target, another port of the same
-- host included, as before.
pub remember_fail-fails_fast :
    (target k : Text × ℕ) (now t_prune t : ℕ) (d : Dict (Text × ℕ) ℕ)
    → IsUnique d
    → t_prune ≤ t
    → leb
        (length (keep (λ expiry. ltb t_prune expiry) (put target (now + proxy_fail_ttl) d)))
        proxy_fail_max
      ≡ true
    → fails_fast t k (remember_fail target now t_prune d)
      ≡ (if pair_beq target k then ltb t (now + proxy_fail_ttl) else fails_fast t k d)
unfolding remember_fail prune_proxy_fail
remember_fail-fails_fast target k now t_prune t d u le room =
    let d' = put target (now + proxy_fail_ttl) d in
    fails_fast-fresh t k (prune_cache (λ (expiry : ℕ). expiry) proxy_fail_max t_prune d')
    ∙ ap is_some (
        prune_cache_live (λ (expiry : ℕ). expiry) proxy_fail_max t_prune t k d'
          (put-IsUnique target (now + proxy_fail_ttl) d u) le room
        ∙ ap (fresh (λ (expiry : ℕ). expiry) t) (get-put k target (now + proxy_fail_ttl) d))
    ∙ ground (arith, fails_fast-fresh t k d)

-- The DNS cache and the memory of rejected targets stay within their capacities, with one entry
-- for each key, whatever is stored.
pub remember_bounded :
    (host ip : Text) (target : Text × ℕ) (now t_prune : ℕ) (d : Dict Text (ℕ × Text))
    (f : Dict (Text × ℕ) ℕ)
    → IsUnique d
    → IsUnique f
    → ((length (remember_dns host ip now t_prune d) ≤ dns_cache_max)
        × IsUnique (remember_dns host ip now t_prune d))
      × ((length (remember_fail target now t_prune f) ≤ proxy_fail_max)
          × IsUnique (remember_fail target now t_prune f))
unfolding remember_dns remember_fail prune_dns_cache prune_proxy_fail
remember_bounded host ip target now t_prune d f u v = (
  prune_cache_bounded (λ entry. entry.0) dns_cache_max t_prune
      (put host (now + dns_cache_ttl, ip) d) (put-IsUnique host (now + dns_cache_ttl, ip) d u),
  prune_cache_bounded (λ expiry. expiry) proxy_fail_max t_prune
      (put target (now + proxy_fail_ttl) f) (put-IsUnique target (now + proxy_fail_ttl) f v),
)
