-- ===== src/Router/Routing.antt =====
-- `Router` of client/core/router.py. `route` awaits the resolver, the connection and the tunnels, and
-- other calls run meanwhile: it is cut there into functions. Times are milliseconds.
use vpnself.Prelude.{
  ℕ, ◌+◌, ◌==◌, Bool, true, false, not, ◌&&◌, ◌||◌, Option, none, some, [], ◌∷◌, if◌then◌else◌, ltb,
  Text, text_eq, pair_eq, is_some,
}
use vpnself.Prelude.Dict.{Dict}
use vpnself.Net.{Library, is_ip_address}
use vpnself.GeoIp.{IntervalSet, China, contains, is_china_ip}
use vpnself.RuleEngine.Rules.{Action, direct, proxy, block}
use vpnself.RuleEngine.{RuleEngine, match_explicit}
use vpnself.CircuitBreaker.{
  CircuitBreaker, is_blocked, record_success, record_failure, record_tls_reject,
}
use vpnself.Router.Caches.{cached_resolve, remember_dns, remember_fail, fails_fast}

-- `_stats`
pub record Stats : Type 0 where
  pub direct_connections : ℕ
  pub proxy_connections : ℕ
  pub blocked_connections : ℕ
  pub failed_connections : ℕ
  pub cb_blocked : ℕ
  pub bytes_up : ℕ
  pub bytes_down : ℕ

pub record Router : Type 0 where
  pub rule_engine : RuleEngine
  pub circuit_breaker : CircuitBreaker
  pub dns_cache : Dict Text (ℕ × Text)
  pub proxy_fail : Dict (Text × ℕ) ℕ
  pub stats : Stats

-- The sets of geoip.py: _SPECIAL_SET, and the module's globals for China.
pub record Geo : Type 0 where
  pub special : IntervalSet
  pub china : China

-- Where `route` has got to: it needs the resolver, or it has an action and an address, if any.
pub data Lookup : Type 0 where
  needs_dns : Option Action → Lookup
  ready : Option Action → Option Text → Lookup

-- What `route` does next: it opens a connection to a host or asks the pool for a stream, or it is
-- over, with None or with the KeyError of `is_blocked`.
pub data Plan : Type 0 where
  open_direct : Text → Plan
  ask_pool : Plan
  give_up : Plan
  key_error : Plan

-- The truth of an optional text: an empty one counts as None.
abbrev pub truthy : Option Text → Option Text
truthy none = none
truthy (some []) = none
truthy (some (c ∷ cs)) = some (c ∷ cs)

-- `action is None or action == Action.DIRECT`
abbrev pub wants_address : Option Action → Bool
wants_address none = true
wants_address (some direct) = true
wants_address (some proxy) = false
wants_address (some block) = false

-- `x += 1` on the counters.
abbrev pub add_direct : Router → Router
add_direct r = record r {
  stats = record r.stats { direct_connections = r.stats.direct_connections + 1 };
}

abbrev pub add_proxy : Router → Router
add_proxy r = record r {
  stats = record r.stats { proxy_connections = r.stats.proxy_connections + 1 };
}

abbrev pub add_blocked : Router → Router
add_blocked r = record r {
  stats = record r.stats { blocked_connections = r.stats.blocked_connections + 1 };
}

abbrev pub add_failed : Router → Router
add_failed r = record r {
  stats = record r.stats { failed_connections = r.stats.failed_connections + 1 };
}

abbrev pub add_cb_blocked : Router → Router
add_cb_blocked r = record r { stats = record r.stats { cb_blocked = r.stats.cb_blocked + 1 } }

-- The cache behind the resolver; `now` and `t_prune` are the two readings of the clock.
abbrev pub store_answer : ℕ → ℕ → Text → Option Text → Router → Router
store_answer now t_prune host none r = r
store_answer now t_prune host (some ip) r = record r {
  dns_cache = remember_dns host ip now t_prune r.dns_cache;
}

module _ (py : Library) where
  -- `route` up to the resolver, with the lookup in the cache at `now`.
  unfoldable pub begin_route : ℕ → Text → Router → Lookup × Router
  begin_route now host r =
      let host_is_ip = is_ip_address py host in
      let (hit, cache) = cached_resolve now host r.dns_cache in
      let resolved_ip = if host_is_ip then some host else hit in
      let action = match_explicit py host resolved_ip r.rule_engine in
      (
        if wants_address action && not (is_some resolved_ip) && not host_is_ip
            then needs_dns action
            else ready action resolved_ip,
        if host_is_ip then r else record r { dns_cache = cache },
      )

  -- `resolved_ip and is_ip_address(resolved_ip)`
  abbrev pub valid_answer : Option Text → Option Text
  valid_answer none = none
  valid_answer (some []) = none
  valid_answer (some (c ∷ cs)) = if is_ip_address py (c ∷ cs) then some (c ∷ cs) else none

  -- `if action is None: action = self.rule_engine.match_explicit(host, resolved_ip)`
  abbrev pub match_again : Text → Option Text → RuleEngine → Option Action → Option Action
  match_again host resolved_ip rules none = match_explicit py host resolved_ip rules
  match_again host resolved_ip rules (some action) = some action

  -- Behind the resolver: its answer, or none where it raises.
  unfoldable pub dns_answered :
      ℕ → ℕ → Text → Option Action → Option Text → Router → Option Action × Option Text × Router
  dns_answered now t_prune host action answer r =
      let resolved_ip = valid_answer answer in
      (
        match_again host resolved_ip r.rule_engine action,
        resolved_ip,
        store_answer now t_prune host resolved_ip r,
      )

  -- `connect_host`
  abbrev pub connect_host : Text → Option Text → Text
  connect_host host resolved_ip = elim (valid_answer resolved_ip) [ none ↦ host | some ip ↦ ip ]

  -- The branch for DIRECT with an address, on what `is_blocked` returns or raises.
  abbrev pub unless_blocked :
      Text → Option Text → Option (CircuitBreaker × Bool) → Router → Plan × Router
  unless_blocked host resolved_ip none r = (key_error, r)
  unless_blocked host resolved_ip (some (cb, true)) r =
      (give_up, add_blocked (add_cb_blocked (record r { circuit_breaker = cb })))
  unless_blocked host resolved_ip (some (cb, false)) r =
      (open_direct (connect_host host resolved_ip), add_direct (record r { circuit_breaker = cb }))

module _ (py : Library) (geo : Geo) where
  -- `is_special_ip`
  unfoldable pub is_special_ip : Text → Bool
  is_special_ip ip_str = contains py geo.special ip_str

  -- The heuristics where no explicit rule matches; `connected` is `self.pool.connected`.
  abbrev pub by_address : Bool → Action → Option Text → Action
  by_address connected default none = if connected then proxy else default
  by_address connected default (some ip) =
      if is_special_ip ip
      then direct
      else if is_china_ip py geo.china ip
      then direct
      else if connected
      then proxy
      else default

  abbrev pub final_action : Bool → Option Text → Option Action → RuleEngine → Action
  final_action connected resolved_ip none rules =
      by_address connected rules.default_action (truthy resolved_ip)
  final_action connected resolved_ip (some action) rules = action

  -- The branches of `route` on the action, up to the next await. `now` is the reading in the branch
  -- of the action, and `t_save` and `writable` are for the state file of the circuit breaker.
  unfoldable pub decide :
      Bool → ℕ → ℕ → Bool → Text × ℕ → Option Action → Option Text → Router → Plan × Router
  decide writable now t_save connected (host, port) action resolved_ip r =
      elim (final_action connected resolved_ip action r.rule_engine) [
        | block ↦ (give_up, add_blocked r)
        | direct ↦ elim (truthy resolved_ip) [
          | none ↦ (open_direct (connect_host py host resolved_ip), add_direct r)
          | some ip ↦
              unless_blocked py host resolved_ip
                (is_blocked writable ip now t_save r.circuit_breaker) r
        ]
        | proxy ↦
            if not connected
            then (give_up, add_failed (add_proxy r))
            else if fails_fast now (host, port) r.proxy_fail
            then (give_up, add_failed (add_proxy r))
            else (ask_pool, add_proxy r)
      ]

-- Behind `open_connection` for DIRECT: whether there is a connection, and the router. The times are
-- those of `record_failure`.
unfoldable pub direct_ended : Bool → ℕ → ℕ → ℕ → ℕ → Option Text → Bool → Router → Bool × Router
direct_ended writable now t_prune t_schedule t_save resolved_ip true r = (
  true,
  elim (truthy resolved_ip) [
    | none ↦ r
    | some ip ↦ record r { circuit_breaker = record_success ip r.circuit_breaker }
  ],
)
direct_ended writable now t_prune t_schedule t_save resolved_ip false r =
    let r' = add_failed r in
    (
      false,
      elim (truthy resolved_ip) [
        | none ↦ r'
        | some ip ↦ record r' {
          circuit_breaker =
              record_failure writable ip now t_prune t_schedule t_save r.circuit_breaker;
        }
      ],
    )

-- What `pool.create_stream` returns: a stream, CONNECT_REJECTED or None.
pub data Asked : Type 0 where
  stream : ℕ → Asked
  rejected : Asked
  no_tunnel : Asked

-- Behind `create_stream`, whose second call answers where the first has found no tunnel. `now` is
-- the reading before the first call.
unfoldable pub pool_answered : ℕ → ℕ → Text × ℕ → Asked → Asked → Router → Option ℕ × Router
pool_answered now t_prune target (stream sid) again r = (some sid, r)
pool_answered now t_prune target rejected again r =
    (none, add_failed (record r { proxy_fail = remember_fail target now t_prune r.proxy_fail }))
pool_answered now t_prune target no_tunnel (stream sid) r = (some sid, r)
pool_answered now t_prune target no_tunnel rejected r =
    (none, add_failed (record r { proxy_fail = remember_fail target now t_prune r.proxy_fail }))
pool_answered now t_prune target no_tunnel no_tunnel r = (none, add_failed r)

abbrev pub tls_ok_min_sent : ℕ
tls_ok_min_sent = 200

abbrev pub tls_ok_min_recv : ℕ
tls_ok_min_recv = 7

module _ (py : Library) where
  -- The address that `record_stream_result` looks at, and the cache.
  abbrev pub address_of : ℕ → Text → Dict Text (ℕ × Text) → Option Text × Dict Text (ℕ × Text)
  address_of now host d =
      if is_ip_address py host then (some host, d) else cached_resolve now host d

  -- The verdict on a stream to an address.
  abbrev pub judge : Option Text → ℕ → ℕ → CircuitBreaker → CircuitBreaker
  judge none bytes_sent bytes_recv cb = cb
  judge (some ip) bytes_sent bytes_recv cb =
      if ltb tls_ok_min_sent bytes_sent || ltb tls_ok_min_recv bytes_recv
      then record_success ip cb
      else record_tls_reject ip cb

  unfoldable pub record_stream_result : ℕ → Text → ℕ → ℕ → Router → Router
  record_stream_result now host bytes_sent bytes_recv r =
      if bytes_sent == 0 && bytes_recv == 0
      then r
      else let (found, cache) = address_of now host r.dns_cache in
        record r {
          dns_cache = cache;
          circuit_breaker = judge (valid_answer py found) bytes_sent bytes_recv r.circuit_breaker;
          stats = record r.stats {
            bytes_up = r.stats.bytes_up + bytes_sent;
            bytes_down = r.stats.bytes_down + bytes_recv;
          };
        }
