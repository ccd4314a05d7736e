-- ===== src/RuleEngine/Files.antt =====
-- The rules file of client/core/rule_engine.py: what is saved comes back.
use vpnself.Prelude.{◌≡◌, refl, some, List, [], ◌∷◌, map}
use vpnself.Prelude.Sort.{sort_by_of_IsSorted}
use vpnself.RuleEngine.Rules.{
  Action, direct, proxy, block, Rule, parse_action, action_value, from_dict, to_dict, higher,
}
use vpnself.RuleEngine.{
  RuleEngine, by_priority, replace_rules, parsed, from_dicts, load_doc, load_rules, save_rules,
}
use vpnself.RuleEngine.Order.{IsOrdered}

parse_action-action_value : (a : Action) → parse_action (action_value a) ≡ some a
parse_action-action_value direct = refl
parse_action-action_value proxy = refl
parse_action-action_value block = refl

from_dict-to_dict : (r : Rule) → from_dict (to_dict r) ≡ some r
unfolding from_dict to_dict
from_dict-to_dict r = rw (parse_action-action_value r.action) refl

from_dicts-to_dict : (rs : List Rule) → from_dicts (map to_dict rs) ≡ some rs
from_dicts-to_dict [] = refl
from_dicts-to_dict (r ∷ rs) = rw (from_dict-to_dict r, from_dicts-to_dict rs) refl

-- Rules in order of priority that are saved and loaded into any engine are the rules that were
-- saved, with the default action.
pub load_rules-save_rules :
    (e e' : RuleEngine) → IsOrdered e → load_rules (parsed (save_rules e)) e' ≡ e
unfolding load_rules save_rules load_doc replace_rules by_priority
load_rules-save_rules e e' h =
    rw
      (
        parse_action-action_value e.default_action,
        from_dicts-to_dict e.domain_rules,
        from_dicts-to_dict e.ip_rules,
        sort_by_of_IsSorted higher e.domain_rules h.0,
        sort_by_of_IsSorted higher e.ip_rules h.1,
      )
      refl
