-- ===== src/Router/Decision.antt =====
-- When `route` of client/core/router.py asks the resolver.
use vpnself.Prelude.{
  ℕ, ◌≡◌, ◌⊎◌, ◌↔◌, inl, inr, refl, ap, true, false, Option, none, some, Text, Bool-cases,
  Option-cases, arith, text_eq, pair_eq,
}
use vpnself.Net.{Library, is_ip_address}
use vpnself.RuleEngine.Rules.{Action, direct, proxy, block}
use vpnself.RuleEngine.{match_explicit}
use vpnself.Router.Caches.{cached_resolve}
use vpnself.Router.Routing.{Router, needs_dns, wants_address, begin_route}

pub Action-cases : (a : Action) → (a ≡ block) ⊎ (a ≡ direct) ⊎ (a ≡ proxy)
Action-cases block = inl refl
Action-cases direct = inr (inl refl)
Action-cases proxy = inr (inr refl)

-- No rule, or one that says DIRECT.
abbrev pub MayBeDirect : Option Action → Type 0
MayBeDirect action = (action ≡ none) ⊎ (action ≡ some direct)

wants_address-cases : (a : Option Action) → wants_address a ≡ true → MayBeDirect a
wants_address-cases none h = inl refl
wants_address-cases (some direct) h = inr refl
wants_address-cases (some proxy) h = absurd cc
wants_address-cases (some block) h = absurd cc

wants_address-of_cases : (a : Option Action) → MayBeDirect a → wants_address a ≡ true
wants_address-of_cases a (inl h) = ap wants_address h
wants_address-of_cases a (inr h) = ap wants_address h

-- `route` asks the local resolver exactly where the host is a name that is not in its cache and no
-- explicit rule matches the name or the first one that does says DIRECT: a name that a rule sends
-- through the tunnel or blocks is never looked up.
pub begin_route-needs_dns :
    (py : Library) (now : ℕ) (host : Text) (r : Router) (action : Option Action)
    → ((begin_route py now host r).0 ≡ needs_dns action) ↔ (
        (is_ip_address py host ≡ false)
        × ((cached_resolve now host r.dns_cache).0 ≡ none)
        × (match_explicit py host none r.rule_engine ≡ action)
        × MayBeDirect action)
unfolding begin_route
begin_route-needs_dns py now host r action = (asks, answers)
  where
    asks :
        (begin_route py now host r).0 ≡ needs_dns action
        → (is_ip_address py host ≡ false)
          × ((cached_resolve now host r.dns_cache).0 ≡ none)
          × (match_explicit py host none r.rule_engine ≡ action)
          × MayBeDirect action
    asks h = elim (Bool-cases (is_ip_address py host)) [
      | inl q ↦ absurd (ground (arith, q))
      | inr q ↦ elim (Option-cases (cached_resolve now host r.dns_cache).0) [
        | inl o ↦
            let wants : wants_address action ≡ true = ground (arith, q, o) in
            let same : match_explicit py host none r.rule_engine ≡ action = ground (arith, q, o) in
            (q, o, same, wants_address-cases action wants)
        | inr (ip, o) ↦ absurd (ground (arith, q, o))
      ]
    ]

    answers :
        (is_ip_address py host ≡ false)
          × ((cached_resolve now host r.dns_cache).0 ≡ none)
          × (match_explicit py host none r.rule_engine ≡ action)
          × MayBeDirect action
        → (begin_route py now host r).0 ≡ needs_dns action
    answers (q, o, m, d) =
        let wants = wants_address-of_cases action d in ground (arith, q, o, m, wants)
