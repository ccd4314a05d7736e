-- ===== src/RuleEngine/Matching.antt =====
-- What client/core/rule_engine.py decides: which rule answers, and what a pattern covers.
use vpnself.Prelude.{
  ◌≢◌, ◌≡◌, refl, ◌∙◌, ap, sym, inl, inr, Bool, true, false, Option, none, some, List, [], ◌∷◌,
  ◌++◌, All, Text, text_eq, text_beq, text_beq_iff, arith, Bool-cases, ltz, ℤ, pos, negsuc,
}
use vpnself.Prelude.Sort.{IsSorted}
use vpnself.Net.{Library, is_ip_address}
use vpnself.RuleEngine.Rules.{Action, Rule, higher, domain_matches, ip_matches}
use vpnself.RuleEngine.{RuleEngine, first_match, resolved_match, or_else, match_explicit}

-- No listed rule matches.
abbrev pub NoMatch : (Rule → Bool) → List Rule → Type 0
NoMatch p rs = All (λ s. p s ≡ false) rs

-- `r` is listed and matches, no rule in front of it matches, and no matching rule has a higher
-- priority.
abbrev pub IsBest : (Rule → Bool) → List Rule → Rule → Type 0
IsBest p rs r =
    (p r ≡ true)
    × ((xs : List Rule) × (ys : List Rule) × (rs ≡ xs ++ (r ∷ ys)) × NoMatch p xs)
    × All (λ s. p s ≡ true → higher s r ≡ false) rs

ltz_irrefl : (a : ℤ) → ltz a a ≡ false
ltz_irrefl (pos a) = ground arith
ltz_irrefl (negsuc a) = ground arith

absurd_test {ℓ} : {A : Type ℓ} {b : Bool} → b ≡ false → b ≡ true → A
absurd_test h k = cc

not_higher_self : (r : Rule) → higher r r ≡ false
not_higher_self r = ltz_irrefl r.priority

All-matching :
    (p : Rule → Bool) (r : Rule) (rs : List Rule)
    → All (λ s. higher s r ≡ false) rs
    → All (λ s. p s ≡ true → higher s r ≡ false) rs
All-matching p r [] h = tt
All-matching p r (s ∷ rs) h = (λ _. h.0, All-matching p r rs h.1)

-- What the loop over the rules returns.
pub data Found (p : Rule → Bool) (rs : List Rule) : Option Action → Type 0 where
  found : (r : Rule) → IsBest p rs r → Found p rs (some r.action)
  absent : NoMatch p rs → Found p rs none

Found-cons :
    (p : Rule → Bool) (r : Rule) (rs : List Rule) (a : Option Action)
    → p r ≡ false
    → Found p rs a
    → Found p (r ∷ rs) a
Found-cons p r rs _ h (found s (e, (xs, ys, q, n), b)) =
    found s (e, (r ∷ xs, ys, ap (λ z. r ∷ z) q, (h, n)), ((λ k. absurd_test h k), b))
Found-cons p r rs _ h (absent n) = absent (h, n)

first_match-Found :
    (p : Rule → Bool) (rs : List Rule) → IsSorted higher rs → Found p rs (first_match p rs)
first_match-Found p [] s = absent tt
first_match-Found p (r ∷ rs) s = elim (Bool-cases (p r)) [
  | inl e ↦
      rw e (found r (e, ([], rs, refl, tt), ((λ _. not_higher_self r), All-matching p r rs s.0)))
  | inr e ↦ rw e (Found-cons p r rs (first_match p rs) e (first_match-Found p rs s.1))
]

-- The answer of `match_explicit` and the rule that gives it. An address is first looked up among
-- the address rules, then every host among the domain rules, then a resolved address that is
-- neither empty nor the host itself among the address rules. Among the domain rules an exact pattern
-- has no precedence over a wildcard: the priority and the place in the list decide.
pub data Choice (py : Library) (host : Text) (ip : Option Text) (e : RuleEngine)
    : Option Action → Type 0 where
  by_address :
      (r : Rule)
      → is_ip_address py host ≡ true
      → IsBest (ip_matches py host) e.ip_rules r
      → Choice py host ip e (some r.action)
  by_name :
      (r : Rule)
      → (is_ip_address py host ≡ true → NoMatch (ip_matches py host) e.ip_rules)
      → IsBest (domain_matches py host) e.domain_rules r
      → Choice py host ip e (some r.action)
  by_resolved :
      (r : Rule) (t : Text)
      → ip ≡ some t
      → t ≢ []
      → t ≢ host
      → (is_ip_address py host ≡ true → NoMatch (ip_matches py host) e.ip_rules)
      → NoMatch (domain_matches py host) e.domain_rules
      → IsBest (ip_matches py t) e.ip_rules r
      → Choice py host ip e (some r.action)
  no_rule :
      (is_ip_address py host ≡ true → NoMatch (ip_matches py host) e.ip_rules)
      → NoMatch (domain_matches py host) e.domain_rules
      → ((t : Text) → ip ≡ some t → t ≢ [] → t ≢ host → NoMatch (ip_matches py t) e.ip_rules)
      → Choice py host ip e none

module _ (py : Library) (host : Text) (e : RuleEngine) where
  abbrev NoAddress : Type 0
  NoAddress = is_ip_address py host ≡ true → NoMatch (ip_matches py host) e.ip_rules

  resolved-Found :
      (t : Text) (a : Option Action)
      → t ≢ []
      → t ≢ host
      → NoAddress
      → NoMatch (domain_matches py host) e.domain_rules
      → Found (ip_matches py t) e.ip_rules a
      → Choice py host (some t) e a
  resolved-Found t _ k l na nd (found r w) = by_resolved r t refl k l na nd w
  resolved-Found t _ k l na nd (absent n) =
      no_rule na nd (λ u h k' l'. let q : t ≡ u = cc in rw (sym q) n)

  resolved-Choice :
      (ip : Option Text)
      → IsSorted higher e.ip_rules
      → NoAddress
      → NoMatch (domain_matches py host) e.domain_rules
      → Choice py host ip e (resolved_match py host ip e.ip_rules)
  resolved-Choice none s na nd = no_rule na nd (λ t h. cc)
  resolved-Choice (some []) s na nd = no_rule na nd (λ t h k. absurd (k (cc)))
  resolved-Choice (some (c ∷ cs)) s na nd = elim (Bool-cases (text_beq (c ∷ cs) host)) [
    | inl b ↦ rw b (
        no_rule na nd
          (λ t h k l. absurd (l (let q : t ≡ c ∷ cs = cc in q ∙ (text_beq_iff (c ∷ cs) host).0 b))))
    | inr b ↦ rw b (
        resolved-Found (c ∷ cs) (first_match (ip_matches py (c ∷ cs)) e.ip_rules) (λ h. cc)
          (λ h. absurd_test b ((text_beq_iff (c ∷ cs) host).1 h)) na nd
          (first_match-Found (ip_matches py (c ∷ cs)) e.ip_rules s))
  ]

  name-Found :
      (ip : Option Text) (a b : Option Action)
      → NoAddress
      → Found (domain_matches py host) e.domain_rules a
      → (NoMatch (domain_matches py host) e.domain_rules → Choice py host ip e b)
      → Choice py host ip e (or_else a b)
  name-Found ip _ b na (found r w) k = by_name r na w
  name-Found ip _ b na (absent n) k = k n

  address-Found :
      (ip : Option Text) (a b : Option Action)
      → is_ip_address py host ≡ true
      → Found (ip_matches py host) e.ip_rules a
      → (NoAddress → Choice py host ip e b)
      → Choice py host ip e (or_else a b)
  address-Found ip _ b h (found r w) k = by_address r h w
  address-Found ip _ b h (absent n) k = k (λ _. n)

  -- On rules in order of priority, `match_explicit` answers with the action of the rule that
  -- `Choice` describes, and with none exactly where no rule that it may consult matches. An address
  -- rule for a host that is an address comes before the domain rules, and an exact domain and a
  -- wildcard rank alike, by priority and place.
  pub match_explicit-Choice :
      (ip : Option Text)
      → IsSorted higher e.ip_rules
      → IsSorted higher e.domain_rules
      → Choice py host ip e (match_explicit py host ip e)
  unfolding match_explicit
  match_explicit-Choice ip s d = elim (Bool-cases (is_ip_address py host)) [
    | inl h ↦ rw h (
        address-Found ip (first_match (ip_matches py host) e.ip_rules) (rest ip) h
          (first_match-Found (ip_matches py host) e.ip_rules s) (after ip s d))
    | inr h ↦ rw h (after ip s d (λ k. absurd_test h k))
  ]
    where
      rest : Option Text → Option Action
      rest ip =
          or_else (first_match (domain_matches py host) e.domain_rules)
            (resolved_match py host ip e.ip_rules)

      after :
          (ip : Option Text)
          → IsSorted higher e.ip_rules
          → IsSorted higher e.domain_rules
          → NoAddress
          → Choice py host ip e (rest ip)
      after ip s d na =
          name-Found ip (first_match (domain_matches py host) e.domain_rules)
            (resolved_match py host ip e.ip_rules) na
            (first_match-Found (domain_matches py host) e.domain_rules d)
            (λ nd. resolved-Choice ip s na nd)
