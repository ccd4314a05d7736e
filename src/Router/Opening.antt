-- ===== src/Router/Opening.antt =====
-- The direct connections of `route` in client/core/router.py: when it opens one, and to which target.
use vpnself.Prelude.{
  ℕ, ◌≡◌, ◌≢◌, ◌⊎◌, ◌↔◌, if◌then◌else◌, inl, inr, refl, sym, ◌∙◌, ap, Bool, true, false, Option,
  none, some, [], ◌∷◌, Text, Bool-cases, Option-cases, arith, text_eq, pair_eq,
}
use mathlib.Core.Path.{subst}
use vpnself.Net.{Library, is_ip_address}
use vpnself.GeoIp.{contains, is_china_ip}
use vpnself.RuleEngine.Rules.{Action, direct, proxy}
use vpnself.RuleEngine.{RuleEngine}
use vpnself.CircuitBreaker.{CircuitBreaker, is_blocked}
use vpnself.Router.Routing.{
  Router, Geo, open_direct, truthy, final_action, by_address, unless_blocked, connect_host, decide,
  is_special_ip,
}
use vpnself.Router.Decision.{Action-cases}

module _ (py : Library) (geo : Geo) where
  -- There is an address, in a special range or in China.
  abbrev pub IsLocal : Option Text → Type 0
  IsLocal resolved_ip =
      (ip : Text) × (resolved_ip ≡ some ip)
      × (ip ≢ [])
      × ((contains py geo.special ip ≡ true) ⊎ (is_china_ip py geo.china ip ≡ true))

  -- The rule says DIRECT, or there is none and the address or the default without a tunnel does.
  abbrev pub IsDirect : Bool → Option Action → Option Text → RuleEngine → Type 0
  IsDirect connected action resolved_ip rules =
      (action ≡ some direct)
      ⊎ ((action ≡ none)
          × (IsLocal resolved_ip ⊎ ((connected ≡ false) × (rules.default_action ≡ direct))))

  -- A connection goes to the address where there is a valid one, and else to the host.
  abbrev pub IsTarget : Text → Option Text → Text → Type 0
  IsTarget host resolved_ip target =
      ((resolved_ip ≡ some target) × (target ≢ []) × (is_ip_address py target ≡ true))
      ⊎ (((ip : Text) → resolved_ip ≡ some ip → ip ≢ [] → is_ip_address py ip ≡ false)
          × (target ≡ host))

  -- The circuit breaker lets the address pass, where there is one.
  abbrev pub IsUnblocked : Bool → ℕ → ℕ → Option Text → CircuitBreaker → Type 0
  IsUnblocked writable now t_save resolved_ip cb =
      (ip : Text)
      → resolved_ip ≡ some ip
      → ip ≢ []
      → (cb' : CircuitBreaker) × (is_blocked writable ip now t_save cb ≡ some (cb', false))

  without_address :
      (connected : Bool) (default : Action)
      → ((if connected then proxy else default) ≡ direct)
        ↔ ((connected ≡ false) × (default ≡ direct))
  without_address true default = ((λ h. absurd cc), (λ h. absurd cc))
  without_address false default = ((λ h. (refl, h)), (λ h. h.1))

  final_action-IsDirect :
      (connected : Bool) (action : Option Action) (resolved_ip : Option Text) (rules : RuleEngine)
      → (final_action py geo connected resolved_ip action rules ≡ direct)
        ↔ IsDirect connected action resolved_ip rules
  unfolding is_special_ip
  final_action-IsDirect connected (some a) resolved_ip rules =
      ((λ h. inl (ap some h)), (λ d. elim d [ inl h ↦ cc | inr (h, _) ↦ absurd cc ]))
  final_action-IsDirect connected none none rules = (
    (λ h. inr (refl, inr ((without_address connected rules.default_action).0 h))),
    (λ d. elim d [
      | inl h ↦ absurd cc
      | inr (_, inl (ip, h, _, _)) ↦ absurd cc
      | inr (_, inr h) ↦ (without_address connected rules.default_action).1 h
    ]),
  )
  final_action-IsDirect connected none (some []) rules = (
    (λ h. inr (refl, inr ((without_address connected rules.default_action).0 h))),
    (λ d. elim d [
      | inl h ↦ absurd cc
      | inr (_, inl (ip, h, filled, _)) ↦ absurd (filled cc)
      | inr (_, inr h) ↦ (without_address connected rules.default_action).1 h
    ]),
  )
  final_action-IsDirect connected none (some (c ∷ cs)) rules =
      elim (Bool-cases (contains py geo.special (c ∷ cs))) [
        | inl s ↦
            ((λ h. inr (refl, inl (c ∷ cs, refl, (λ e. cc), inl s))), (λ d. ground (arith, s)))
        | inr s ↦ elim (Bool-cases (is_china_ip py geo.china (c ∷ cs))) [
          | inl t ↦
              ((λ h. inr (refl, inl (c ∷ cs, refl, (λ e. cc), inr t))), (λ d. ground (arith, s, t)))
          | inr t ↦
              let same : by_address py geo connected rules.default_action (some (c ∷ cs))
                  ≡ (if connected then proxy else rules.default_action) =
                ground (arith, s, t) in
              (
                (λ h. inr (
                  refl,
                  inr ((without_address connected rules.default_action).0 (sym same ∙ h)),
                )),
                (λ d. elim d [
                  | inl h ↦ absurd cc
                  | inr (_, inl (ip, h, filled, near)) ↦
                      let e : c ∷ cs ≡ ip = cc in
                      elim near [
                        | inl k ↦
                            let k' = subst (λ i. contains py geo.special i ≡ true) (sym e) k in
                            absurd cc
                        | inr k ↦
                            let k' = subst (λ i. is_china_ip py geo.china i ≡ true) (sym e) k in
                            absurd cc
                      ]
                  | inr (_, inr h) ↦ same ∙ (without_address connected rules.default_action).1 h
                ]),
              )
        ]
      ]

  connect_host-IsTarget :
      (host : Text) (resolved_ip : Option Text) (target : Text)
      → (target ≡ connect_host py host resolved_ip) ↔ IsTarget host resolved_ip target
  connect_host-IsTarget host none target =
      ((λ h. inr ((λ ip e. cc), h)), (λ t. elim t [ inl (h, _, _) ↦ absurd cc | inr (_, h) ↦ h ]))
  connect_host-IsTarget host (some []) target = (
    (λ h. inr ((λ ip e filled. absurd (filled cc)), h)),
    (λ t. elim t [ inl (h, filled, _) ↦ absurd (filled cc) | inr (_, h) ↦ h ]),
  )
  connect_host-IsTarget host (some (c ∷ cs)) target =
      elim (Bool-cases (is_ip_address py (c ∷ cs))) [
        | inl v ↦
            rw (v, connect_host)
              (
                (λ h.
                    inl (
                      ap some (sym h),
                      (λ e. cc),
                      subst (λ i. is_ip_address py i ≡ true) (sym h) v,
                    )),
                (λ t. elim t [
                  | inl (h, _, _) ↦ cc
                  | inr (none_valid, _) ↦ let bad = none_valid (c ∷ cs) refl (λ e. cc) in absurd cc
                ]),
              )
        | inr v ↦
            rw (v, connect_host)
              (
                (λ h. inr (
                  (λ ip e filled.
                      let same : c ∷ cs ≡ ip = cc in
                      subst (λ i. is_ip_address py i ≡ false) same v),
                  h,
                )),
                (λ t. elim t [
                  | inl (h, _, ok) ↦
                      let same : target ≡ c ∷ cs = cc in
                      let ok' = subst (λ i. is_ip_address py i ≡ true) same ok in absurd cc
                  | inr (_, h) ↦ h
                ]),
              )
      ]

  truthy-some : (o : Option Text) (ip : Text) → o ≡ some ip → ip ≢ [] → truthy o ≡ some ip
  truthy-some none ip h filled = absurd cc
  truthy-some (some []) ip h filled = absurd (filled cc)
  truthy-some (some (c ∷ cs)) ip h filled = h

  unless_blocked-opens :
      (host target : Text) (resolved_ip : Option Text) (answer : Option (CircuitBreaker × Bool))
      (r : Router)
      → (unless_blocked py host resolved_ip answer r).0 ≡ open_direct target
      → ((cb : CircuitBreaker) × (answer ≡ some (cb, false)))
        × (target ≡ connect_host py host resolved_ip)
  unless_blocked-opens host target resolved_ip none r h = absurd cc
  unless_blocked-opens host target resolved_ip (some (cb, true)) r h = absurd cc
  unless_blocked-opens host target resolved_ip (some (cb, false)) r h = ((cb, refl), cc)

  module _ (writable : Bool) (now t_save : ℕ) (connected : Bool) (host : Text) (port : ℕ)
      (action : Option Action) (resolved_ip : Option Text) (r : Router) (target : Text) where
    abbrev Opens : Type 0
    Opens =
        (decide py geo writable now t_save connected (host, port) action resolved_ip r).0
        ≡ open_direct target

    abbrev pub IsOpened : Type 0
    IsOpened =
        IsDirect connected action resolved_ip r.rule_engine
        × IsTarget host resolved_ip target
        × IsUnblocked writable now t_save resolved_ip r.circuit_breaker

    opened : Opens → IsOpened
    unfolding decide
    opened h =
        elim (Action-cases (final_action py geo connected resolved_ip action r.rule_engine)) [
          | inl q ↦ absurd (ground (arith, q))
          | inr (inr q) ↦ absurd (ground (arith, q))
          | inr (inl q) ↦
              let d = (final_action-IsDirect connected action resolved_ip r.rule_engine).0 q in
              elim (Option-cases (truthy resolved_ip)) [
                | inl o ↦ (
                  d,
                  (connect_host-IsTarget host resolved_ip target).0 (ground (arith, q, o)),
                  λ ip k filled. let t = truthy-some resolved_ip ip k filled in absurd cc,
                )
                | inr (ip, o) ↦
                    let found =
                      unless_blocked-opens host target resolved_ip
                        (is_blocked writable ip now t_save r.circuit_breaker) r
                        (ground (arith, q, o)) in
                    (
                      d,
                      (connect_host-IsTarget host resolved_ip target).0 found.1,
                      λ i k filled.
                          let t = truthy-some resolved_ip i k filled in
                          let same : ip ≡ i = cc in
                          subst
                            (λ j.
                              (cb : CircuitBreaker) × (is_blocked writable j now t_save
                                  r.circuit_breaker
                                ≡ some (cb, false)))
                            same found.0,
                    )
              ]
        ]
