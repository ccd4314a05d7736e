-- ===== src/RuleEngine/Patterns.antt =====
-- What a domain pattern covers (`DomainRule.matches` of client/core/rule_engine.py).
use vpnself.Prelude.{
  ◌-◌, ◌≡◌, refl, ◌∙◌, ap, sym, ◌↔◌, ◌⊎◌, inl, inr, Bool, true, false, not, ◌||◌, ◌++◌,
  if◌then◌else◌, length, take, drop, Text, text_eq, text_beq, text_beq_iff, codes, arith,
  length-append, take-append-drop, drop-append_exact,
}
use vpnself.Net.{Library}
use vpnself.RuleEngine.Rules.{Rule, starts_with, ends_with, domain_matches}

ends_with_there : (t s : Text) → ends_with t s ≡ true → (p : Text) × (t ≡ p ++ s)
ends_with_there t s h = (
  take (length t - length s) t,
  sym (take-append-drop (length t - length s) t)
      ∙ ap (λ z. take (length t - length s) t ++ z)
          ((text_beq_iff (drop (length t - length s) t) s).0 (ground (arith, h))),
)

ends_with-append : (p s : Text) → ends_with (p ++ s) s ≡ true
ends_with-append p s = ground (
  arith,
  length-append p s,
  drop-append_exact p s (length (p ++ s) - length s) (omega (arith, length-append p s)),
  text_beq_iff s s,
)

ends_with_iff : (t s : Text) → (ends_with t s ≡ true) ↔ ((p : Text) × (t ≡ p ++ s))
ends_with_iff t s = (ends_with_there t s, λ (p, e). rw e (ends_with-append p s))

or_iff {ℓ κ} :
    {P : Type ℓ} {Q : Type κ} (a b : Bool)
    → (a ≡ true) ↔ P
    → (b ≡ true) ↔ Q
    → ((a || b) ≡ true) ↔ (P ⊎ Q)
or_iff true b h k = (λ e. inl (h.0 e), λ e. refl)
or_iff false b h k =
    (λ e. inr (k.0 e), λ e. elim e [ inl x ↦ absurd (let y = h.1 x in cc) | inr x ↦ k.1 x ])

guard_iff {ℓ} :
    {P : Type ℓ} (on b : Bool)
    → (b ≡ true) ↔ P
    → ((if not on then false else b) ≡ true) ↔ ((on ≡ true) × P)
guard_iff true b h = (λ e. (refl, h.0 e), λ k. h.1 k.1)
guard_iff false b h = (λ e. absurd cc, λ k. absurd cc)

module _ (py : Library) where
  -- A pattern `*.domain` matches the domain and the names below it, in any case of letters, where
  -- the rule is enabled, and nothing else.
  pub domain_matches-below :
      (host d : Text) (r : Rule)
      → py.lower r.pattern ≡ codes "*." ++ d
      → (domain_matches py host r ≡ true) ↔ (
          (r.enabled ≡ true)
          × ((py.lower host ≡ d) ⊎ ((p : Text) × (py.lower host ≡ p ++ (codes "." ++ d)))))
  unfolding domain_matches
  domain_matches-below host d r e =
      let x = py.lower host in
      rw e (
        guard_iff r.enabled (text_beq x d || ends_with x (codes "." ++ d)) (
          or_iff (text_beq x d) (ends_with x (codes "." ++ d)) (text_beq_iff x d)
            (ends_with_iff x (codes "." ++ d))))

  exact_eq :
      (host : Text) (r : Rule)
      → starts_with (py.lower r.pattern) (codes "*.") ≡ false
      → domain_matches py host r
        ≡ (if not r.enabled then false else text_beq (py.lower host) (py.lower r.pattern))
  unfolding domain_matches
  exact_eq host r h = ground (arith, h)

  -- A pattern that does not begin with `*.` matches the one name that it spells, in any case of
  -- letters, where the rule is enabled.
  pub domain_matches-exact :
      (host : Text) (r : Rule)
      → starts_with (py.lower r.pattern) (codes "*.") ≡ false
      → (domain_matches py host r ≡ true)
        ↔ ((r.enabled ≡ true) × (py.lower host ≡ py.lower r.pattern))
  domain_matches-exact host r h = rw (exact_eq host r h) (
      guard_iff r.enabled (text_beq (py.lower host) (py.lower r.pattern))
        (text_beq_iff (py.lower host) (py.lower r.pattern)))
