-- ===== src/RuleEngine/Rules.antt =====
-- The rules of client/core/rule_engine.py, their JSON objects, and what they match.
use vpnself.Prelude.{
  ◌-◌, Bool, true, false, not, ◌&&◌, ◌||◌, Option, none, some, [], if◌then◌else◌, ◌>>=◌, leb,
  length, take, drop, any, ◌==◌, Text, text_beq, codes, ℤ, pos, ltz,
}
use vpnself.Net.{Library, ip_in_network}

pub data Action : Type 0 where
  direct : Action
  proxy : Action
  block : Action

-- `Action(value)`; `none` is the ValueError.
abbrev pub parse_action : Text → Option Action
parse_action t =
    if text_beq t (codes "direct")
    then some direct
    else if text_beq t (codes "proxy")
    then some proxy
    else if text_beq t (codes "block")
    then some block
    else none

-- `action.value`
abbrev pub action_value : Action → Text
action_value direct = codes "direct"
action_value proxy = codes "proxy"
action_value block = codes "block"

pub record Rule : Type 0 where
  pub pattern : Text
  pub action : Action
  pub priority : ℤ
  pub description : Text
  pub enabled : Bool

-- A rule in a rules file; a field is `none` where its key is missing.
pub record RuleDict : Type 0 where
  pub pattern : Option Text
  pub action : Option Text
  pub priority : Option ℤ
  pub description : Option Text
  pub enabled : Option Bool

-- `d.get(key, default)`
abbrev pub get_default {ℓ} : {A : Type ℓ} → Option A → A → A
get_default none d = d
get_default (some a) d = a

unfoldable pub from_dict : RuleDict → Option Rule
from_dict d = do
  action ← parse_action (get_default d.action (codes "direct"))
  some (record {
    pattern = get_default d.pattern (codes "*");
    action = action;
    priority = get_default d.priority (pos 0);
    description = get_default d.description [];
    enabled = get_default d.enabled true;
  })

unfoldable pub to_dict : Rule → RuleDict
to_dict r = record {
  pattern = some r.pattern;
  action = some (action_value r.action);
  priority = some r.priority;
  description = some r.description;
  enabled = some r.enabled;
}

-- `t.startswith(p)` and `t.endswith(s)`
abbrev pub starts_with : Text → Text → Bool
starts_with t p = text_beq (take (length p) t) p

abbrev pub ends_with : Text → Text → Bool
ends_with t s = leb (length s) (length t) && text_beq (drop (length t - length s) t) s

-- `"*" in pattern`
abbrev pub has_star : Text → Bool
has_star t = any (λ c. c == b'*') t

-- A rule of a higher priority stands in front: `sorted(key=priority, reverse=True)`.
abbrev pub higher : Rule → Rule → Bool
higher r s = ltz s.priority r.priority

module _ (py : Library) where
  -- `DomainRule.matches`
  unfoldable pub domain_matches : Text → Rule → Bool
  domain_matches host r =
      let host_lower = py.lower host in
      let pattern_lower = py.lower r.pattern in
      if not r.enabled
      then false
      else if has_star pattern_lower
      then (if starts_with pattern_lower (codes "*.")
          then text_beq host_lower (drop 2 pattern_lower)
            || ends_with host_lower (drop 1 pattern_lower)
          else text_beq host_lower pattern_lower)
      else text_beq host_lower pattern_lower

  -- `IpCidrRule.matches`
  unfoldable pub ip_matches : Text → Rule → Bool
  ip_matches ip_str r = if not r.enabled then false else ip_in_network py ip_str r.pattern
