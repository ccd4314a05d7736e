-- ===== src/Server/ForwardProxy/Safety.antt =====
-- The addresses that the calls of `connect_target` in server/forward_proxy.py open.
use vpnself.Prelude.{
  All-middle, codes, ℕ, ◌≡◌, refl, sym, Bool, Option, none, some, List, [], ◌∷◌, ◌++◌, All,
  All-append, leb, if◌then◌else◌, Text, text_eq, nat_eq, arith, length, if_both, ◌&&◌,
}
use mathlib.Core.Path.{subst}
use vpnself.Net.{Library}
use vpnself.Server.Relay.{connect_fail}
use vpnself.Server.DnsCache.{dns_cache_get}
use vpnself.Server.ForwardProxy.{
  ForwardProxy, Resolver, Next, refuse, raises, is_unicode_error, resolve_host, open_address,
  Opened, begin_connect, resolved, opened, register, remove_relay, with_answer, resolve,
}
use vpnself.Server.ForwardProxy.Attempts.{
  Stage, Attempt, System, stage_of, go_on, stage_after, Step, begins, registers, removes, Steps,
  here, step,
}
use vpnself.Server.ForwardProxy.Public.{
  IsPublic, EntriesArePublic, CacheIsPublic, resolve-IsPublic, dns_cache_get-IsPublic,
  dns_cache_put-IsPublic,
}

module _ (py : Library) (net : Resolver) where
  -- A call that waits to open an address waits for a public one.
  abbrev pub StageIsPublic : Stage → Type 0
  StageIsPublic Stage.resolves = Unit
  StageIsPublic (Stage.opens ip) = IsPublic py net ip
  StageIsPublic Stage.answers = Unit

  abbrev pub IsSafe : System → Type 0
  IsSafe s = CacheIsPublic py net s.proxy × All (λ a. StageIsPublic a.stage) s.attempts

  -- What a step of a call leaves.
  abbrev pub NextIsPublic : Next × ForwardProxy → Type 0
  NextIsPublic r = CacheIsPublic py net r.1 × All StageIsPublic (stage_of r.0)

  hit_stage :
      (o : Option Text)
      → ((ip : Text) → o ≡ some ip → IsPublic py net ip)
      → All StageIsPublic (stage_of (elim o [ none ↦ resolve_host | some ip ↦ open_address ip ]))
  hit_stage none h = (tt, tt)
  hit_stage (some ip) h = (h ip refl, tt)

  begin_connect-IsPublic :
      (now stream_id : ℕ) (host : Text) (p : ForwardProxy)
      → CacheIsPublic py net p
      → NextIsPublic (begin_connect py net now stream_id host p)
  unfolding begin_connect
  begin_connect-IsPublic now stream_id host p a =
      let (hit, cache) = dns_cache_get now host p.dns_cache in
      let got = dns_cache_get-IsPublic py net now host p.dns_cache a in
      if_both NextIsPublic (leb p.max_connections (length p.active_relays))
        (refuse (connect_fail stream_id (codes "server at capacity")), p)
        (
          elim hit [ none ↦ resolve_host | some ip ↦ open_address ip ],
          record p { dns_cache = cache },
        )
        (λ _. (a, tt)) (λ _. (got.0, hit_stage hit got.1))

  with_answer-IsPublic :
      (now stream_id : ℕ) (host : Text) (answer : Option Text) (p : ForwardProxy)
      → CacheIsPublic py net p
      → ((ip : Text) → answer ≡ some ip → IsPublic py net ip)
      → NextIsPublic (with_answer now stream_id host answer p)
  with_answer-IsPublic now stream_id host none p a h = (a, tt)
  with_answer-IsPublic now stream_id host (some ip) p a h =
      (dns_cache_put-IsPublic py net now host ip p.dns_cache a (h ip refl), (h ip refl, tt))

  pub resolved-IsPublic :
      (in_time : Bool) (now stream_id : ℕ) (host : Text) (p : ForwardProxy)
      → CacheIsPublic py net p
      → NextIsPublic (resolved py net in_time now stream_id host p)
  unfolding resolved
  resolved-IsPublic in_time now stream_id host p a =
      if_both NextIsPublic (in_time && is_unicode_error (net.getaddrinfo host)) (raises, p)
        (with_answer now stream_id host (if in_time then resolve py net host else none) p)
        (λ _. (a, tt))
        (λ _.
          with_answer-IsPublic now stream_id host (if in_time then resolve py net host else none) p
            a
            (if_both (λ o. (ip : Text) → o ≡ some ip → IsPublic py net ip) in_time
              (resolve py net host) none (λ _ ip h. resolve-IsPublic py net host ip h)
              (λ _ ip h. absurd cc)))

  go_on-IsPublic :
      (a : Attempt) (stages : List Stage)
      → All StageIsPublic stages
      → All (λ b. StageIsPublic b.stage) (go_on a stages)
  go_on-IsPublic a [] h = tt
  go_on-IsPublic a (s ∷ stages) h = (h.0, tt)

  stage_after-IsPublic : (result : Opened) → All StageIsPublic (stage_after result)
  stage_after-IsPublic Opened.connected = (tt, tt)
  stage_after-IsPublic Opened.timed_out = tt
  stage_after-IsPublic (Opened.broken e) = tt

  opened-dns_cache :
      (result : Opened) (stream_id : ℕ) (p : ForwardProxy)
      → (opened result stream_id p).2.dns_cache ≡ p.dns_cache
  unfolding opened
  opened-dns_cache Opened.connected stream_id p = refl
  opened-dns_cache Opened.timed_out stream_id p = refl
  opened-dns_cache (Opened.broken e) stream_id p = refl

  remove_relay-dns_cache :
      (c s : ℕ) (p : ForwardProxy) → (remove_relay c s p).1.dns_cache ≡ p.dns_cache
  unfolding remove_relay
  remove_relay-dns_cache c s p = ground arith

  -- The attempts around one that goes on.
  replaced-IsPublic :
      (a : Attempt) (xs ys : List Attempt) (stages : List Stage) (s : System)
      → s.attempts ≡ xs ++ (a ∷ ys)
      → All (λ b. StageIsPublic b.stage) s.attempts
      → All StageIsPublic stages
      → All (λ b. StageIsPublic b.stage) (xs ++ (go_on a stages ++ ys)) × StageIsPublic a.stage
  replaced-IsPublic a xs ys stages s e h k =
      let P = λ (b : Attempt). StageIsPublic b.stage in
      let (before, this, after) = All-middle P xs a ys (subst (All P) e h) in
      (
        All-append P xs (go_on a stages ++ ys) before
            (All-append P (go_on a stages) ys (go_on-IsPublic a stages k) after),
        this,
      )

  Step-IsSafe :
      (s s' : System) (ips : List Text)
      → Step py net s ips s'
      → IsSafe s
      → IsSafe s' × All (IsPublic py net) ips
  Step-IsSafe s _ _ (begins now a _) v =
      let next = begin_connect-IsPublic now a.stream_id a.host s.proxy v.0 in
      let stages = stage_of (begin_connect py net now a.stream_id a.host s.proxy).0 in
      (
        (
          next.0,
          All-append (λ (b : Attempt). StageIsPublic b.stage) s.attempts (go_on a stages) v.1
              (go_on-IsPublic a stages next.1),
        ),
        tt,
      )
  Step-IsSafe s _ _ (Step.resolves in_time now a xs ys _ e _) v =
      let next = resolved-IsPublic in_time now a.stream_id a.host s.proxy v.0 in
      let stages = stage_of (resolved py net in_time now a.stream_id a.host s.proxy).0 in
      ((next.0, (replaced-IsPublic a xs ys stages s e v.1 next.1).0), tt)
  Step-IsSafe s _ _ (Step.opens result ip a xs ys _ e st) v =
      let around =
        replaced-IsPublic a xs ys (stage_after result) s e v.1 (stage_after-IsPublic result) in
      (
        (
          subst (EntriesArePublic py net) (sym (opened-dns_cache result a.stream_id s.proxy)) v.0,
          around.0,
        ),
        (subst StageIsPublic st around.1, tt),
      )
  Step-IsSafe s _ _ (registers a xs ys _ e st) v =
      ((unfold register in v.0, (replaced-IsPublic a xs ys [] s e v.1 tt).0), tt)
  Step-IsSafe s _ _ (removes c i _) v =
      ((subst (EntriesArePublic py net) (sym (remove_relay-dns_cache c i s.proxy)) v.0, v.1), tt)

  -- Through any steps of any number of concurrent calls of `connect_target`, every address that
  -- `open_connection` is called with is a public one, answers out of the DNS cache included.
  pub Steps-IsPublic :
      (s s' : System) (ips : List Text)
      → Steps py net s ips s'
      → IsSafe s
      → IsSafe s' × All (IsPublic py net) ips
  Steps-IsPublic s _ _ (here _) v = (v, tt)
  Steps-IsPublic s s'' _ (step _ s' _ ips more one rest) v =
      let first = Step-IsSafe s s' ips one v in
      let (last, after) = Steps-IsPublic s' s'' more rest first.0 in
      (last, All-append (IsPublic py net) ips more first.1 after)
