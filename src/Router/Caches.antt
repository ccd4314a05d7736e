-- ===== src/Router/Caches.antt =====
-- The two caches of client/core/router.py, `_dns_cache` and `_proxy_fail`. Times are milliseconds,
-- and each reading of the clock is an argument.
use vpnself.Prelude.{
  ℕ, ◌+◌, ◌-◌, ◌*◌, ◌≤◌, ◌≡◌, refl, ap, ◌∙◌, Bool, true, false, Option, none, some, if◌then◌else◌,
  ltb, leb, length, Text, Eq, text_eq, pair_eq, arith, if_both, leb→le,
}
use vpnself.Prelude.Dict.{Dict, get, put, remove, keep, IsUnique, get-keep, keep-IsUnique}
use vpnself.Prelude.Dict.Evict.{evict, length-evict, evict-IsUnique}

-- DNS_CACHE_TTL and PROXY_FAIL_TTL, in milliseconds, and the capacities.
abbrev pub dns_cache_ttl : ℕ
dns_cache_ttl = 300 * 1000

abbrev pub dns_cache_max : ℕ
dns_cache_max = 1024

abbrev pub proxy_fail_ttl : ℕ
proxy_fail_ttl = 15 * 1000

abbrev pub proxy_fail_max : ℕ
proxy_fail_max = 512

over : (cap n : ℕ) → leb n cap ≡ false → cap ≤ n
over cap n h = ground (arith, h)

-- An entry that has not expired at `t`.
abbrev pub fresh {κ} : {V : Type κ} → (V → ℕ) → ℕ → Option V → Option V
fresh expiry t none = none
fresh expiry t (some v) = if ltb t (expiry v) then some v else none

fresh_kept {κ} :
    {V : Type κ} (expiry : V → ℕ) (now t : ℕ) (o : Option V)
    → now ≤ t
    → fresh expiry t (elim o [ none ↦ none | some v ↦ if ltb now (expiry v) then some v else none ])
      ≡ fresh expiry t o
fresh_kept expiry now t none h = refl
fresh_kept expiry now t (some v) h = ground (arith, h)

module _ {ℓ κ} {K : Type ℓ} {V : Type κ} ⦃e : Eq K⦄ (expiry : V → ℕ) (cap : ℕ) where
  -- The body that `_prune_dns_cache` and `_prune_proxy_fail` share.
  unfoldable pub prune_cache : ℕ → Dict K V → Dict K V
  prune_cache now d =
      if leb (length d) cap
      then d
      else let live = keep (λ v. ltb now (expiry v)) d in
        if leb (length live) cap then live else evict expiry (length live - cap) live

  -- After a prune the cache is within its capacity, and no key is listed twice.
  pub prune_cache_bounded :
      (now : ℕ) (d : Dict K V)
      → IsUnique d
      → (length (prune_cache now d) ≤ cap) × IsUnique (prune_cache now d)
  unfolding prune_cache
  prune_cache_bounded now d u =
      let live = keep (λ v. ltb now (expiry v)) d in
      if_both (λ r. (length r ≤ cap) × IsUnique r) (leb (length d) cap) d
        (if leb (length live) cap then live else evict expiry (length live - cap) live)
        (λ h. (leb→le (length d) cap h, u))
        (λ _.
          if_both (λ r. (length r ≤ cap) × IsUnique r) (leb (length live) cap) live
            (evict expiry (length live - cap) live)
            (λ h. (leb→le (length live) cap h, keep-IsUnique (λ v. ltb now (expiry v)) d u))
            (λ h. (
              omega (
                arith,
                over cap (length live) h,
                length-evict expiry (length live - cap) live
                    (keep-IsUnique (λ v. ltb now (expiry v)) d u) (omega arith),
              ),
              evict-IsUnique expiry (length live - cap) live
                  (keep-IsUnique (λ v. ltb now (expiry v)) d u),
            )))

  -- A prune loses no entry that is still fresh, unless more entries are fresh than the cache holds.
  pub prune_cache_live :
      (now t : ℕ) (j : K) (d : Dict K V)
      → IsUnique d
      → now ≤ t
      → leb (length (keep (λ v. ltb now (expiry v)) d)) cap ≡ true
      → fresh expiry t (get j (prune_cache now d)) ≡ fresh expiry t (get j d)
  unfolding prune_cache
  prune_cache_live now t j d u le room =
      let live = keep (λ v. ltb now (expiry v)) d in
      if_both (λ r. fresh expiry t (get j r) ≡ fresh expiry t (get j d)) (leb (length d) cap) d
        (if leb (length live) cap then live else evict expiry (length live - cap) live) (λ _. refl)
        (λ _.
          if_both (λ r. fresh expiry t (get j r) ≡ fresh expiry t (get j d)) (leb (length live) cap)
            live (evict expiry (length live - cap) live)
            (λ _.
              ap (fresh expiry t) (get-keep (λ v. ltb now (expiry v)) j d u)
              ∙ fresh_kept expiry now t (get j d) le)
            (λ full. absurd cc))

-- `_cached_resolve` at `now`: the answer, and the cache without an expired entry of the host.
unfoldable pub cached_resolve : ℕ → Text → Dict Text (ℕ × Text) → Option Text × Dict Text (ℕ × Text)
cached_resolve now host d = elim (get host d) [
  | none ↦ (none, d)
  | some entry ↦ if ltb now entry.0 then (some entry.1, d) else (none, remove host d)
]

-- `_prune_dns_cache`
unfoldable pub prune_dns_cache : ℕ → Dict Text (ℕ × Text) → Dict Text (ℕ × Text)
prune_dns_cache now d = prune_cache (λ entry. entry.0) dns_cache_max now d

-- What `route` does with an address that `resolve_host` has found.
unfoldable pub remember_dns : Text → Text → ℕ → ℕ → Dict Text (ℕ × Text) → Dict Text (ℕ × Text)
remember_dns host ip now t_prune d = prune_dns_cache t_prune (put host (now + dns_cache_ttl, ip) d)

-- `_prune_proxy_fail`
unfoldable pub prune_proxy_fail : ℕ → Dict (Text × ℕ) ℕ → Dict (Text × ℕ) ℕ
prune_proxy_fail now d = prune_cache (λ expiry. expiry) proxy_fail_max now d

-- What `route` does with a target that the server has rejected.
unfoldable pub remember_fail : Text × ℕ → ℕ → ℕ → Dict (Text × ℕ) ℕ → Dict (Text × ℕ) ℕ
remember_fail target now t_prune d = prune_proxy_fail t_prune (put target (now + proxy_fail_ttl) d)

-- `exp is not None and now < exp`
unfoldable pub fails_fast : ℕ → Text × ℕ → Dict (Text × ℕ) ℕ → Bool
fails_fast now target d = elim (get target d) [ none ↦ false | some expiry ↦ ltb now expiry ]
