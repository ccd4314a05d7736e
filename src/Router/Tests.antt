-- ===== src/Router/Tests.antt =====
-- The theorems about the router's caches at concrete entries.
use vpnself.Prelude.{
  ℕ, ◌≡◌, ◌≤◌, ◌↔◌, refl, [], ◌∷◌, some, none, true, false, length, Text, codes, text_eq, pair_eq,
  arith,
}
use vpnself.Prelude.Dict.{Dict, IsUnique}
use vpnself.Router.Caches.{
  cached_resolve, remember_dns, remember_fail, dns_cache_max, proxy_fail_max,
}
use vpnself.Net.{is_ip_address}
use vpnself.Net.Sample.{sample}
use vpnself.GeoIp.{IntervalSet}
use vpnself.RuleEngine.Rules.{direct}
use vpnself.RuleEngine.{new_engine, match_explicit}
use vpnself.CircuitBreaker.{CircuitBreaker, is_blocked, maybe_save}
use vpnself.Router.Routing.{Router, Geo, begin_route, decide, direct_ended, needs_dns, open_direct}
use vpnself.Router.Decision.{MayBeDirect, begin_route-needs_dns}
use vpnself.Router.Counters.{AddUp, Reaches, starts, decides, ends_direct, Reaches-AddUp}
use vpnself.Router.Memory.{remember_bounded}

abbrev names : Dict Text (ℕ × Text)
names = (codes "old.example", (9000, codes "10.0.0.1")) ∷ []

abbrev rejected : Dict (Text × ℕ) ℕ
rejected = ((codes "a.example", 443), 9000) ∷ []

remember_bounded_example :
    ((length (remember_dns (codes "a.example") (codes "10.0.0.2") 1000 1001 names) ≤ dns_cache_max)
      × IsUnique (remember_dns (codes "a.example") (codes "10.0.0.2") 1000 1001 names))
    × ((length (remember_fail (codes "a.example", 80) 1000 1001 rejected) ≤ proxy_fail_max)
        × IsUnique (remember_fail (codes "a.example", 80) 1000 1001 rejected))
remember_bounded_example =
    remember_bounded (codes "a.example") (codes "10.0.0.2") (codes "a.example", 80) 1000 1001 names
      rejected (refl, tt) (refl, tt)

abbrev no_networks : IntervalSet
no_networks = record { starts = []; ends = [] }

abbrev geo : Geo
geo = record { special = no_networks; china = record { ranges = []; set = no_networks } }

abbrev breaker : CircuitBreaker
breaker = record {
  failures = [];
  blocked = [];
  tls_reject_total = 0;
  last_save = 0;
  save_dirty = false;
  disk = none;
}

abbrev router : Router
router = record {
  rule_engine = new_engine;
  circuit_breaker = breaker;
  dns_cache = [];
  proxy_fail = [];
  stats = record {
    direct_connections = 0;
    proxy_connections = 0;
    blocked_connections = 0;
    failed_connections = 0;
    cb_blocked = 0;
    bytes_up = 0;
    bytes_down = 0;
  };
}

begin_route-needs_dns_example :
    ((begin_route sample 100 (codes "a.example") router).0 ≡ needs_dns none) ↔ (
      (is_ip_address sample (codes "a.example") ≡ false)
      × ((cached_resolve 100 (codes "a.example") router.dns_cache).0 ≡ none)
      × (match_explicit sample (codes "a.example") none router.rule_engine ≡ none)
      × MayBeDirect none)
begin_route-needs_dns_example = begin_route-needs_dns sample 100 (codes "a.example") router none

asks_resolver : (begin_route sample 100 (codes "a.example") router).0 ≡ needs_dns none
unfolding begin_route is_ip_address cached_resolve match_explicit
asks_resolver = refl

opens_address :
    (decide sample geo true 100 101 true
      (codes "a.example", 443)
      (some direct)
      (some (codes "1.2.3.4"))
      router).0
    ≡ open_direct (codes "1.2.3.4")
unfolding decide is_blocked maybe_save is_ip_address
opens_address = refl

-- A direct connection is begun and fails.
failed : Router
unfolding decide is_blocked maybe_save is_ip_address
failed =
    (direct_ended true 200 200 200 200 none false
      (decide sample geo true 100 101 true (codes "a.example", 443) (some direct) none router).1).1

failed_reached : Reaches sample geo router 0 failed
unfolding decide is_blocked maybe_save is_ip_address failed
failed_reached =
    ends_direct true 200 200 200 200 none false 0 _
      (decides true 100 101 true (codes "a.example", 443) (some direct) none 0 router starts)

Reaches-AddUp_example : AddUp 0 failed.stats
Reaches-AddUp_example =
    Reaches-AddUp sample geo router failed 0 (omega arith, omega arith) failed_reached
