-- ===== src/Server/ForwardProxy/Admission.antt =====
-- The admission control of `connect_target` in server/forward_proxy.py, which counts the relays
-- before it awaits the resolver and the connection, and not again when it stores the relay.
use vpnself.Prelude.{
  ℕ, ◌+◌, ◌<◌, ◌≡◌, ◌≢◌, refl, sym, some, none, [], ◌∷◌, ◌++◌, List, lt→ltb, length, Text, text_eq,
  nat_eq, arith, ==_iff,
}
use mathlib.Core.Path.{subst}
use mathlib.Core.List.{append_assoc}
use vpnself.Prelude.Dict.{get, put, length-put, get-put}
use vpnself.Net.{Library}
use vpnself.Server.Relay.{new_relay}
use vpnself.Server.DnsCache.{dns_cache_get}
use vpnself.Server.ForwardProxy.{
  ForwardProxy, Resolver, Opened, open_address, begin_connect, opened, register, make_key,
}
use vpnself.Server.ForwardProxy.Attempts.{
  go_on, stage_of, Stage, answers, Attempt, System, Step, begins, registers, Steps, here, step,
}

module _ (py : Library) (net : Resolver) where
  -- A call for a host in the cache, where there is a place.
  begin_connect_hit :
      (now expiry stream_id : ℕ) (host ip : Text) (p : ForwardProxy)
      → length p.active_relays < p.max_connections
      → get host p.dns_cache ≡ some (expiry, ip)
      → now < expiry
      → begin_connect py net now stream_id host p ≡ (open_address ip, p)
  unfolding begin_connect dns_cache_get
  begin_connect_hit now expiry stream_id host ip p room hit fresh =
      ground (arith, room, hit, lt→ltb now expiry fresh)

  Steps-append :
      (s s' s'' : System) (ips more : List Text)
      → Steps py net s ips s'
      → Steps py net s' more s''
      → Steps py net s (ips ++ more) s''
  Steps-append s _ s'' _ more (here _) rest = rest
  Steps-append s s' s'' _ more (step _ t _ ips ips' one tail) rest =
      subst (λ z. Steps py net s z s'') (sym (append_assoc ips ips' more))
        (step s t s'' ips (ips' ++ more) one (Steps-append t s' s'' ips' more tail rest))

  abbrev to_open : Text → Attempt → Attempt
  to_open ip a = record a { stage = Stage.opens ip }

  begins_hit :
      (now expiry : ℕ) (ip : Text) (a : Attempt) (s : System)
      → length s.proxy.active_relays < s.proxy.max_connections
      → get a.host s.proxy.dns_cache ≡ some (expiry, ip)
      → now < expiry
      → Step py net s [] (record s { attempts = s.attempts ++ (to_open ip a ∷ []) })
  begins_hit now expiry ip a s room hit fresh =
      subst
        (λ r.
          Step py net s []
            (record { proxy = r.1; attempts = s.attempts ++ go_on a (stage_of r.0) }))
        (begin_connect_hit now expiry a.stream_id a.host ip s.proxy room hit fresh) (begins now a s)

  -- A proxy that has connected for a call and stored its relay.
  abbrev served : Attempt → ForwardProxy → ForwardProxy
  served a p = record p {
    active_relays = put (make_key a.client_id a.stream_id) (new_relay a.stream_id) p.active_relays;
    total_connections = p.total_connections + 1;
  }

  serves :
      (ip : Text) (a : Attempt) (ys : List Attempt) (p : ForwardProxy)
      → Steps py net
          (record { proxy = p; attempts = to_open ip a ∷ ys })
          (ip ∷ [])
          (record { proxy = served a p; attempts = ys })
  unfolding opened register
  serves ip a ys p =
      step _ _ _ (ip ∷ []) [] (Step.opens Opened.connected ip (to_open ip a) [] ys _ refl refl)
        (step _ _ _ [] [] (registers (record a { stage = answers }) [] ys _ refl refl) (here _))

  -- Two calls that are admitted while one place is left both store a relay: the table then has one
  -- relay more than `max_connections`.
  pub begin_connect_overshoots :
      (now expiry : ℕ) (ip : Text) (a b : Attempt) (p : ForwardProxy)
      → length p.active_relays + 1 ≡ p.max_connections
      → get a.host p.dns_cache ≡ some (expiry, ip)
      → get b.host p.dns_cache ≡ some (expiry, ip)
      → now < expiry
      → get (make_key a.client_id a.stream_id) p.active_relays ≡ none
      → get (make_key b.client_id b.stream_id) p.active_relays ≡ none
      → make_key a.client_id a.stream_id ≢ make_key b.client_id b.stream_id
      → (p' : ForwardProxy) × Steps py net
          (record { proxy = p; attempts = [] })
          (ip ∷ ip ∷ [])
          (record { proxy = p'; attempts = [] })
        × (p'.max_connections ≡ p.max_connections)
        × (length p'.active_relays ≡ p.max_connections + 1)
  begin_connect_overshoots now expiry ip a b p room ha hb fresh na nb differ = (
    served b (served a p),
    step _ _ _ [] (ip ∷ ip ∷ [])
        (begins_hit now expiry ip a (record { proxy = p; attempts = [] }) (omega arith) ha fresh)
        (step _ _ _ [] (ip ∷ ip ∷ [])
          (begins_hit now expiry ip b (record { proxy = p; attempts = to_open ip a ∷ [] })
            (omega arith) hb fresh)
          (Steps-append _ _ _ (ip ∷ []) (ip ∷ []) (serves ip a (to_open ip b ∷ []) p)
            (serves ip b [] (served a p)))),
    refl,
    two_more,
  )
    where
      ka : ℕ
      ka = make_key a.client_id a.stream_id

      kb : ℕ
      kb = make_key b.client_id b.stream_id

      two_more : length (served b (served a p)).active_relays ≡ p.max_connections + 1
      two_more = ground (
        arith,
        room,
        length-put ka (new_relay a.stream_id) p.active_relays,
        length-put kb (new_relay b.stream_id) (put ka (new_relay a.stream_id) p.active_relays),
        get-put kb ka (new_relay a.stream_id) p.active_relays,
        ==_iff ka kb,
        na,
        nb,
        differ,
      )
