-- ===== src/RuleEngine.antt =====
-- client/core/rule_engine.py. A rules file is what `json.load` makes of it; its fields have the types
-- that `Rule` declares, and files with fields of other types are not modelled. `malformed` is a file
-- that cannot be read, is no JSON or has a root or an entry that is no object. The lists are values:
-- a reader sees the engine before or after a call.
pub mod Rules
pub mod Defaults
pub mod Matching
pub mod Order
pub mod Patterns
pub mod Files
pub mod Whole
mod Tests
use vpnself.Prelude.{
  ℕ, ◌+◌, ◌-◌, Bool, true, false, not, ◌&&◌, ◌||◌, Option, none, some, List, [], ◌∷◌, ◌++◌, map,
  if◌then◌else◌, ◌>>=◌, ltb, leb, length, take, drop, any, ◌==◌, Text, text_beq, codes, ℤ, pos,
  negsuc, ltz,
}
use vpnself.Prelude.Sort.{sort_by}
use vpnself.Net.{Library, is_ip_address, ip_in_network}
use vpnself.RuleEngine.Rules.{
  Action, direct, proxy, block, parse_action, action_value, Rule, RuleDict, get_default, from_dict,
  to_dict, higher, domain_matches, ip_matches,
}
use vpnself.RuleEngine.Defaults.{default_proxy_domains, default_direct_domains}

pub record RuleEngine : Type 0 where
  pub domain_rules : List Rule
  pub ip_rules : List Rule
  pub default_action : Action

unfoldable pub by_priority : List Rule → List Rule
by_priority rules = sort_by higher rules

-- `for rule in rules: if rule.matches(...): return rule.action`
abbrev pub first_match : (Rule → Bool) → List Rule → Option Action
first_match p [] = none
first_match p (r ∷ rules) = if p r then some r.action else first_match p rules

-- Where a step has an action, the later ones are not taken.
abbrev pub or_else {ℓ} : {A : Type ℓ} → Option A → Option A → Option A
or_else none b = b
or_else (some a) b = some a

module _ (py : Library) where
  -- `resolved_ip and resolved_ip != host`; the matches that are left.
  abbrev pub resolved_match : Text → Option Text → List Rule → Option Action
  resolved_match host none rules = none
  resolved_match host (some []) rules = none
  resolved_match host (some (c ∷ cs)) rules =
      if text_beq (c ∷ cs) host then none else first_match (ip_matches py (c ∷ cs)) rules

  unfoldable pub match_explicit : Text → Option Text → RuleEngine → Option Action
  match_explicit host resolved_ip e =
      or_else (if is_ip_address py host then first_match (ip_matches py host) e.ip_rules else none)
        (or_else (first_match (domain_matches py host) e.domain_rules)
          (resolved_match host resolved_ip e.ip_rules))

  unfoldable pub evaluate : Text → RuleEngine → Action
  evaluate host e = get_default (match_explicit host none e) e.default_action

  unfoldable pub evaluate_with_ip : Text → Option Text → RuleEngine → Action
  evaluate_with_ip host resolved_ip e =
      get_default (match_explicit host resolved_ip e) e.default_action

-- `RuleEngine()`
abbrev pub new_engine : RuleEngine
new_engine = record { domain_rules = []; ip_rules = []; default_action = direct }

unfoldable pub add_domain_rule : Rule → RuleEngine → RuleEngine
add_domain_rule r e = record e { domain_rules = by_priority (e.domain_rules ++ (r ∷ [])) }

unfoldable pub add_ip_rule : Rule → RuleEngine → RuleEngine
add_ip_rule r e = record e { ip_rules = by_priority (e.ip_rules ++ (r ∷ [])) }

unfoldable pub replace_rules : List Rule → List Rule → Option Action → RuleEngine → RuleEngine
replace_rules domain ip default_action e = record {
  domain_rules = by_priority domain;
  ip_rules = by_priority ip;
  default_action = get_default default_action e.default_action;
}

-- `rules[:index] + rules[index + 1:]` where `0 <= index < len(rules)`; `none` where it is not.
abbrev pub remove_at {ℓ} : {A : Type ℓ} → ℤ → List A → Option (List A)
remove_at (negsuc i) rules = none
remove_at (pos i) rules =
    if ltb i (length rules) then some (take i rules ++ drop (i + 1) rules) else none

unfoldable pub remove_domain_rule : ℤ → RuleEngine → RuleEngine × Bool
remove_domain_rule index e = elim (remove_at index e.domain_rules) [
  | none ↦ (e, false)
  | some rules ↦ (record e { domain_rules = rules }, true)
]

unfoldable pub remove_ip_rule : ℤ → RuleEngine → RuleEngine × Bool
remove_ip_rule index e = elim (remove_at index e.ip_rules) [
  | none ↦ (e, false)
  | some rules ↦ (record e { ip_rules = rules }, true)
]

unfoldable pub clear_rules : RuleEngine → RuleEngine
clear_rules e = record e { domain_rules = []; ip_rules = [] }

abbrev pub proxy_rule : Text × ℤ → Rule
proxy_rule (pattern, priority) = record {
  pattern = pattern;
  action = proxy;
  priority = priority;
  description = codes "Default proxy: " ++ pattern;
  enabled = true;
}

abbrev pub direct_rule : Text × ℤ → Rule
direct_rule (pattern, priority) = record {
  pattern = pattern;
  action = direct;
  priority = priority;
  description = codes "Default direct: " ++ pattern;
  enabled = true;
}

-- `_load_defaults`
unfoldable pub load_defaults : RuleEngine
load_defaults = record {
  domain_rules =
      by_priority (map proxy_rule default_proxy_domains ++ map direct_rule default_direct_domains);
  ip_rules = by_priority [];
  default_action = direct;
}

-- The JSON object of a rules file; a field is `none` where its key is missing.
pub record RulesDoc : Type 0 where
  pub default_action : Option Text
  pub domain_rules : Option (List RuleDict)
  pub ip_rules : Option (List RuleDict)

pub data RulesFile : Type 0 where
  missing : RulesFile
  malformed : RulesFile
  parsed : RulesDoc → RulesFile

-- `[Rule.from_dict(rd) for rd in rds]`
abbrev pub from_dicts : List RuleDict → Option (List Rule)
from_dicts [] = some []
from_dicts (d ∷ ds) = do r ← from_dict d; rs ← from_dicts ds; some (r ∷ rs)

-- The body of the `try` of `load_rules`; `none` is an exception.
unfoldable pub load_doc : RulesDoc → RuleEngine → Option RuleEngine
load_doc data_ e = do
  default_action ← parse_action (get_default data_.default_action (codes "direct"))
  domain_rules ← from_dicts (get_default data_.domain_rules [])
  ip_rules ← from_dicts (get_default data_.ip_rules [])
  some (replace_rules domain_rules ip_rules (some default_action) e)

unfoldable pub load_rules : RulesFile → RuleEngine → RuleEngine
load_rules missing e = load_defaults
load_rules malformed e = load_defaults
load_rules (parsed doc) e = get_default (load_doc doc e) load_defaults

-- The document that `save_rules` writes.
unfoldable pub save_rules : RuleEngine → RulesDoc
save_rules e = record {
  default_action = some (action_value e.default_action);
  domain_rules = some (map to_dict e.domain_rules);
  ip_rules = some (map to_dict e.ip_rules);
}
