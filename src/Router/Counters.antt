-- ===== src/Router/Counters.antt =====
-- The counters of client/core/router.py while calls of `route` run at the same time.
use vpnself.Prelude.{
  ℕ, ◌+◌, ◌≤◌, inl, inr, Bool, true, false, Option, none, some, Text, [], ◌∷◌, ◌==◌, Option-cases,
  arith, text_eq, pair_eq, not, ◌&&◌, if_both,
}
use vpnself.Net.{Library}
use vpnself.RuleEngine.Rules.{Action}
use vpnself.CircuitBreaker.{CircuitBreaker, is_blocked}
use vpnself.Router.Caches.{fails_fast}
use vpnself.Router.Routing.{
  Router, Geo, Stats, Plan, open_direct, ask_pool, give_up, key_error, truthy, begin_route,
  dns_answered, final_action, unless_blocked, decide, direct_ended, Asked, stream, rejected,
  no_tunnel, pool_answered, record_stream_result, valid_answer, store_answer,
}
use vpnself.Router.Decision.{Action-cases}

-- The connections that a plan leaves to wait for.
abbrev pub waits : Plan → ℕ
waits (open_direct host) = 1
waits ask_pool = 1
waits give_up = 0
waits key_error = 0

-- The states that the calls lead to, and how many connections are waited for in each.
pub data Reaches (py : Library) (geo : Geo) (start : Router) : ℕ → Router → Type 0 where
  starts : Reaches py geo start 0 start
  begins :
      (now : ℕ) (host : Text) (n : ℕ) (r : Router)
      → Reaches py geo start n r
      → Reaches py geo start n (begin_route py now host r).1
  resolves :
      (now t_prune : ℕ) (host : Text) (action : Option Action) (answer : Option Text) (n : ℕ)
      (r : Router)
      → Reaches py geo start n r
      → Reaches py geo start n (dns_answered py now t_prune host action answer r).2
  decides :
      (writable : Bool) (now t_save : ℕ) (connected : Bool) (target : Text × ℕ)
      (action : Option Action) (resolved_ip : Option Text) (n : ℕ) (r : Router)
      → Reaches py geo start n r
      → Reaches py geo start
          (n + waits (decide py geo writable now t_save connected target action resolved_ip r).0)
          (decide py geo writable now t_save connected target action resolved_ip r).1
  ends_direct :
      (writable : Bool) (now t_prune t_schedule t_save : ℕ) (resolved_ip : Option Text) (ok : Bool)
      (n : ℕ) (r : Router)
      → Reaches py geo start (n + 1) r
      → Reaches py geo start n
          (direct_ended writable now t_prune t_schedule t_save resolved_ip ok r).1
  ends_pool :
      (now t_prune : ℕ) (target : Text × ℕ) (first again : Asked) (n : ℕ) (r : Router)
      → Reaches py geo start (n + 1) r
      → Reaches py geo start n (pool_answered now t_prune target first again r).1
  records :
      (now : ℕ) (host : Text) (bytes_sent bytes_recv n : ℕ) (r : Router)
      → Reaches py geo start n r
      → Reaches py geo start n (record_stream_result py now host bytes_sent bytes_recv r)

-- Each failure is one of the connections that were begun, those still waited for are not among
-- them, and each refusal of the circuit breaker is counted as a block.
abbrev pub AddUp : ℕ → Stats → Type 0
AddUp n s =
    (s.failed_connections + n ≤ s.direct_connections + s.proxy_connections)
    × (s.cb_blocked ≤ s.blocked_connections)

module _ (py : Library) (geo : Geo) where
  unless_blocked-AddUp :
      (host : Text) (resolved_ip : Option Text) (answer : Option (CircuitBreaker × Bool)) (n : ℕ)
      (r : Router)
      → AddUp n r.stats
      → AddUp
          (n + waits (unless_blocked py host resolved_ip answer r).0)
          (unless_blocked py host resolved_ip answer r).1.stats
  unless_blocked-AddUp host resolved_ip none n r h = omega arith
  unless_blocked-AddUp host resolved_ip (some (cb, true)) n r h = omega arith
  unless_blocked-AddUp host resolved_ip (some (cb, false)) n r h = omega arith

  decide-AddUp :
      (writable : Bool) (now t_save : ℕ) (connected : Bool) (host : Text) (port : ℕ)
      (action : Option Action) (resolved_ip : Option Text) (n : ℕ) (r : Router)
      → AddUp n r.stats
      → AddUp
          (n
            + waits
                (decide py geo writable now t_save connected (host, port) action resolved_ip r).0)
          (decide py geo writable now t_save connected (host, port) action resolved_ip r).1.stats
  unfolding decide
  decide-AddUp writable now t_save connected host port action resolved_ip n r h =
      elim (Action-cases (final_action py geo connected resolved_ip action r.rule_engine)) [
        | inl q ↦ rw (q, decide) (omega arith)
        | inr (inl q) ↦ elim (Option-cases (truthy resolved_ip)) [
          | inl o ↦ rw (q, decide) (rw o (omega arith))
          | inr (ip, o) ↦
              rw (q, decide)
                (rw o (
                  unless_blocked-AddUp host resolved_ip
                    (is_blocked writable ip now t_save r.circuit_breaker) n r h))
        ]
        | inr (inr q) ↦
            rw (q, decide)
              (if_both (λ (x : Plan × Router). AddUp (n + waits x.0) x.1.stats) (not connected) _ _
                (λ _. omega arith)
                (λ _.
                  if_both (λ (x : Plan × Router). AddUp (n + waits x.0) x.1.stats)
                    (fails_fast now (host, port) r.proxy_fail) _ _ (λ _. omega arith)
                    (λ _. omega arith)))
      ]

direct_ended-AddUp :
    (writable : Bool) (now t_prune t_schedule t_save : ℕ) (o : Option Text) (ok : Bool) (n : ℕ)
    (r : Router)
    → AddUp (n + 1) r.stats
    → AddUp n (direct_ended writable now t_prune t_schedule t_save o ok r).1.stats
unfolding direct_ended
direct_ended-AddUp writable now t_prune t_schedule t_save none true n r h = omega arith
direct_ended-AddUp writable now t_prune t_schedule t_save none false n r h = omega arith
direct_ended-AddUp writable now t_prune t_schedule t_save (some []) true n r h = omega arith
direct_ended-AddUp writable now t_prune t_schedule t_save (some []) false n r h = omega arith
direct_ended-AddUp writable now t_prune t_schedule t_save (some (c ∷ cs)) true n r h = omega arith
direct_ended-AddUp writable now t_prune t_schedule t_save (some (c ∷ cs)) false n r h = omega arith

pool_answered-AddUp :
    (now t_prune : ℕ) (target : Text × ℕ) (first again : Asked) (n : ℕ) (r : Router)
    → AddUp (n + 1) r.stats
    → AddUp n (pool_answered now t_prune target first again r).1.stats
unfolding pool_answered
pool_answered-AddUp now t_prune target (stream sid) again n r h = omega arith
pool_answered-AddUp now t_prune target rejected again n r h = omega arith
pool_answered-AddUp now t_prune target no_tunnel (stream sid) n r h = omega arith
pool_answered-AddUp now t_prune target no_tunnel rejected n r h = omega arith
pool_answered-AddUp now t_prune target no_tunnel no_tunnel n r h = omega arith

module _ (py : Library) where
  begin_route-AddUp :
      (now : ℕ) (host : Text) (n : ℕ) (r : Router)
      → AddUp n r.stats
      → AddUp n (begin_route py now host r).1.stats
  unfolding begin_route
  begin_route-AddUp now host n r h =
      if_both (λ (x : Router). AddUp n x.stats) _ _ _ (λ _. h) (λ _. h)

  store_answer-AddUp :
      (now t_prune : ℕ) (host : Text) (ip : Option Text) (n : ℕ) (r : Router)
      → AddUp n r.stats
      → AddUp n (store_answer now t_prune host ip r).stats
  store_answer-AddUp now t_prune host none n r h = h
  store_answer-AddUp now t_prune host (some ip) n r h = h

  dns_answered-AddUp :
      (now t_prune : ℕ) (host : Text) (action : Option Action) (answer : Option Text) (n : ℕ)
      (r : Router)
      → AddUp n r.stats
      → AddUp n (dns_answered py now t_prune host action answer r).2.stats
  unfolding dns_answered
  dns_answered-AddUp now t_prune host action answer n r h =
      store_answer-AddUp now t_prune host (valid_answer py answer) n r h

  record_stream_result-AddUp :
      (now : ℕ) (host : Text) (up down n : ℕ) (r : Router)
      → AddUp n r.stats
      → AddUp n (record_stream_result py now host up down r).stats
  unfolding record_stream_result
  record_stream_result-AddUp now host up down n r h =
      if_both (λ (x : Router). AddUp n x.stats) (up == 0 && down == 0) _ _ (λ _. h) (λ _. h)

-- In whatever order the steps of the calls come, the counters add up: the failures and the
-- connections still waited for are never more than the connections begun, and the refusals of the
-- circuit breaker never more than the blocks.
pub Reaches-AddUp :
    (py : Library) (geo : Geo) (start r : Router) (n : ℕ)
    → AddUp 0 start.stats
    → Reaches py geo start n r
    → AddUp n r.stats
Reaches-AddUp py geo start _ _ h starts = h
Reaches-AddUp py geo start _ _ h (begins now host n r before) =
    begin_route-AddUp py now host n r (Reaches-AddUp py geo start r n h before)
Reaches-AddUp py geo start _ _ h (resolves now t_prune host action answer n r before) =
    dns_answered-AddUp py now t_prune host action answer n r
      (Reaches-AddUp py geo start r n h before)
Reaches-AddUp py geo start _ _ h
      (decides writable now t_save connected target action resolved_ip n r before) =
    decide-AddUp py geo writable now t_save connected target.0 target.1 action resolved_ip n r
      (Reaches-AddUp py geo start r n h before)
Reaches-AddUp py geo start _ _ h
      (ends_direct writable now t_prune t_schedule t_save resolved_ip ok n r before) =
    direct_ended-AddUp writable now t_prune t_schedule t_save resolved_ip ok n r
      (Reaches-AddUp py geo start r (n + 1) h before)
Reaches-AddUp py geo start _ _ h (ends_pool now t_prune target first again n r before) =
    pool_answered-AddUp now t_prune target first again n r
      (Reaches-AddUp py geo start r (n + 1) h before)
Reaches-AddUp py geo start _ _ h (records now host up down n r before) =
    record_stream_result-AddUp py now host up down n r (Reaches-AddUp py geo start r n h before)
