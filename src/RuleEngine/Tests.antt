-- ===== src/RuleEngine/Tests.antt =====
-- The theorems about the rule engine at concrete rules.
use vpnself.Prelude.{
  ◌≡◌, refl, ◌↔◌, ◌⊎◌, ◌∷◌, [], ◌++◌, Text, codes, none, some, true, pos, negsuc, ℤ,
}
use vpnself.Prelude.Sort.{sort_by, insert_by}
use vpnself.Net.Sample.{sample}
use vpnself.Net.{is_ip_address, ip_in_network}
use vpnself.RuleEngine.Rules.{
  Action, direct, proxy, block, Rule, domain_matches, ip_matches, from_dict, to_dict, RuleDict,
}
use vpnself.RuleEngine.{
  RuleEngine, new_engine, by_priority, add_domain_rule, add_ip_rule, remove_domain_rule,
  match_explicit, load_rules, save_rules, load_doc, parsed, RulesDoc,
}
use vpnself.RuleEngine.Matching.{Choice, match_explicit-Choice}
use vpnself.RuleEngine.Order.{start, add_domain, remove_domain, Reaches-IsOrdered, IsOrdered}
use vpnself.RuleEngine.Patterns.{domain_matches-below}
use vpnself.RuleEngine.Files.{load_rules-save_rules}
use vpnself.RuleEngine.Whole.{Outcome, load_rules-whole}

abbrev rule : Text → Action → ℤ → Rule
rule p a n = record { pattern = p; action = a; priority = n; description = []; enabled = true }

abbrev wide : Rule
wide = rule (codes "*.Example.com") proxy (pos 0)

abbrev narrow : Rule
narrow = rule (codes "ads.example.com") block (pos 10)

abbrev lan : Rule
lan = rule (codes "10.0.0.0/8") direct (negsuc 0)

abbrev engine : RuleEngine
engine = record { domain_rules = narrow ∷ wide ∷ []; ip_rules = lan ∷ []; default_action = direct }

added : add_ip_rule lan (add_domain_rule narrow (add_domain_rule wide new_engine)) ≡ engine
unfolding add_ip_rule add_domain_rule by_priority sort_by insert_by
added = refl

blocked_name : match_explicit sample (codes "ADS.example.com") none engine ≡ some block
unfolding match_explicit is_ip_address domain_matches ip_matches
blocked_name = refl

resolved_name : match_explicit sample (codes "nas") (some (codes "10.0.0.9")) engine ≡ some direct
unfolding match_explicit is_ip_address domain_matches ip_matches ip_in_network
resolved_name = refl

engine-IsOrdered : IsOrdered engine
engine-IsOrdered = (((refl, tt), (tt, tt)), (tt, tt))

match_explicit-Choice_example :
    Choice sample
      (codes "ADS.example.com")
      none
      engine
      (match_explicit sample (codes "ADS.example.com") none engine)
match_explicit-Choice_example =
    match_explicit-Choice sample (codes "ADS.example.com") engine none engine-IsOrdered.1
      engine-IsOrdered.0

Reaches-IsOrdered_example :
    IsOrdered (remove_domain_rule (pos 0) (add_domain_rule narrow new_engine)).0
Reaches-IsOrdered_example =
    Reaches-IsOrdered (remove_domain_rule (pos 0) (add_domain_rule narrow new_engine)).0 (
      remove_domain (pos 0) (add_domain_rule narrow new_engine)
        (add_domain narrow new_engine start))

domain_matches-below_example : (domain_matches sample (codes "A.example.com") wide ≡ true) ↔ (
    (true ≡ true)
    × ((codes "a.example.com" ≡ codes "example.com")
        ⊎ ((p : Text) × (codes "a.example.com" ≡ p ++ (codes "." ++ codes "example.com")))))
domain_matches-below_example =
    domain_matches-below sample (codes "A.example.com") (codes "example.com") wide refl

load_rules-save_rules_example : load_rules (parsed (save_rules engine)) new_engine ≡ engine
load_rules-save_rules_example = load_rules-save_rules engine new_engine engine-IsOrdered

abbrev bad_rule : RuleDict
bad_rule = record {
  pattern = none;
  action = some (codes "allow");
  priority = none;
  description = none;
  enabled = none;
}

abbrev bad_doc : RulesDoc
bad_doc = record {
  default_action = none;
  domain_rules = some (to_dict narrow ∷ bad_rule ∷ []);
  ip_rules = none;
}

bad_doc_fails : load_doc bad_doc engine ≡ none
unfolding load_doc from_dict to_dict
bad_doc_fails = refl

load_rules-whole_example : Outcome bad_doc (load_rules (parsed bad_doc) engine)
load_rules-whole_example = load_rules-whole bad_doc engine

-- Rules of the same priority: the wildcard stands in front, and the exact pattern is not looked at.
abbrev exact : Rule
exact = rule (codes "www.example.com") block (pos 0)

wildcard_first :
    match_explicit sample
      (codes "www.example.com")
      none
      (add_domain_rule exact (add_domain_rule wide new_engine))
    ≡ some proxy
unfolding match_explicit is_ip_address domain_matches add_domain_rule by_priority sort_by insert_by
wildcard_first = refl
