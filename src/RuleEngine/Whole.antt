-- ===== src/RuleEngine/Whole.antt =====
-- `load_rules` of client/core/rule_engine.py on a file with entries: all of them are taken, or none.
use vpnself.Prelude.{
  ◌≡◌, ◌≢◌, ◌⊎◌, inl, inr, refl, sym, true, false, Option, none, some, List, [], ◌∷◌, Text, codes,
  text_eq, text_beq, text_beq_iff, Bool-cases, pos,
}
use vpnself.RuleEngine.Rules.{
  Action, direct, proxy, block, Rule, RuleDict, parse_action, action_value, get_default, from_dict,
}
use vpnself.RuleEngine.{
  RuleEngine, by_priority, replace_rules, load_defaults, RulesDoc, parsed, from_dicts, load_doc,
  load_rules,
}

-- A text that names no action.
abbrev pub IsUnknown : Text → Type 0
IsUnknown t = (a : Action) → t ≢ action_value a

-- An entry whose action is given and names none.
abbrev pub IsBadEntry : RuleDict → Type 0
IsBadEntry d = (t : Text) × (d.action ≡ some t) × IsUnknown t

abbrev pub AnyBad : List RuleDict → Type 0
AnyBad [] = ⊥
AnyBad (d ∷ ds) = IsBadEntry d ⊎ AnyBad ds

-- The rule that an entry describes, each field with its default.
abbrev pub IsRuleOf : RuleDict → Rule → Type 0
IsRuleOf d r =
    (r.pattern ≡ get_default d.pattern (codes "*"))
    × (action_value r.action ≡ get_default d.action (codes "direct"))
    × (r.priority ≡ get_default d.priority (pos 0))
    × (r.description ≡ get_default d.description [])
    × (r.enabled ≡ get_default d.enabled true)

-- A rule for every entry, in the same order.
abbrev pub AreRulesOf : List RuleDict → List Rule → Type 0
AreRulesOf [] [] = Unit {0}
AreRulesOf [] (r ∷ rs) = ⊥
AreRulesOf (d ∷ ds) [] = ⊥
AreRulesOf (d ∷ ds) (r ∷ rs) = IsRuleOf d r × AreRulesOf ds rs

-- What a file with entries leaves: an engine with a rule for each of them, or the built-in rules,
-- where some action in the file is unknown.
pub data Outcome (doc : RulesDoc) : RuleEngine → Type 0 where
  whole :
      (ds is : List Rule) (a : Action)
      → AreRulesOf (get_default doc.domain_rules []) ds
      → AreRulesOf (get_default doc.ip_rules []) is
      → action_value a ≡ get_default doc.default_action (codes "direct")
      → Outcome doc
          (record { domain_rules = by_priority ds; ip_rules = by_priority is; default_action = a })
  built_in :
      IsUnknown (get_default doc.default_action (codes "direct"))
        ⊎ AnyBad (get_default doc.domain_rules [])
        ⊎ AnyBad (get_default doc.ip_rules [])
      → Outcome doc load_defaults

abbrev Parsed : Text → Option Action → Type 0
Parsed t a = (IsUnknown t × (a ≡ none)) ⊎ ((b : Action) × (action_value b ≡ t) × (a ≡ some b))

parse_action-cases : (t : Text) → Parsed t (parse_action t)
parse_action-cases t = elim (Bool-cases (text_beq t (codes "direct"))) [
  | inl p ↦ inr (direct, sym ((text_beq_iff t (codes "direct")).0 p), rw p refl)
  | inr p ↦ elim (Bool-cases (text_beq t (codes "proxy"))) [
    | inl q ↦ inr (proxy, sym ((text_beq_iff t (codes "proxy")).0 q), rw (p, q) refl)
    | inr q ↦ elim (Bool-cases (text_beq t (codes "block"))) [
      | inl r ↦ inr (block, sym ((text_beq_iff t (codes "block")).0 r), rw (p, q, r) refl)
      | inr r ↦ inl (unknown p q r, rw (p, q, r) refl)
    ]
  ]
]
  where
    unknown :
        text_beq t (codes "direct") ≡ false
        → text_beq t (codes "proxy") ≡ false
        → text_beq t (codes "block") ≡ false
        → IsUnknown t
    unknown p q r direct h = let k = (text_beq_iff t (codes "direct")).1 h in cc
    unknown p q r proxy h = let k = (text_beq_iff t (codes "proxy")).1 h in cc
    unknown p q r block h = let k = (text_beq_iff t (codes "block")).1 h in cc

-- A missing action is `direct`, which is known.
given :
    (a : Option Text)
    → IsUnknown (get_default a (codes "direct"))
    → (t : Text) × (a ≡ some t) × IsUnknown t
given none h = absurd (h direct refl)
given (some t) h = (t, refl, h)

from_dict-cases :
    (d : RuleDict)
    → (IsBadEntry d × (from_dict d ≡ none)) ⊎ ((r : Rule) × IsRuleOf d r × (from_dict d ≡ some r))
unfolding from_dict
from_dict-cases d = elim (parse_action-cases (get_default d.action (codes "direct"))) [
  | inl (bad, h) ↦ inl (given d.action bad, rw h refl)
  | inr (a, e, h) ↦ inr (
    record {
      pattern = get_default d.pattern (codes "*");
      action = a;
      priority = get_default d.priority (pos 0);
      description = get_default d.description [];
      enabled = get_default d.enabled true;
    },
    (refl, e, refl, refl, refl),
    rw h refl,
  )
]

from_dicts-cases :
    (ds : List RuleDict)
    → (AnyBad ds × (from_dicts ds ≡ none))
      ⊎ ((rs : List Rule) × AreRulesOf ds rs × (from_dicts ds ≡ some rs))
from_dicts-cases [] = inr ([], tt, refl)
from_dicts-cases (d ∷ ds) = elim (from_dict-cases d) [
  | inl (bad, h) ↦ inl (inl bad, rw h refl)
  | inr (r, e, h) ↦ elim (from_dicts-cases ds) [
    | inl (bad, k) ↦ inl (inr bad, rw (h, k) refl)
    | inr (rs, es, k) ↦ inr (r ∷ rs, (e, es), rw (h, k) refl)
  ]
]

-- Loading a file with entries gives, whatever the engine before, either an engine with exactly one
-- rule for each entry, in order of priority, and the default action of the file, or, where the
-- default action or the action of some entry names no action, the built-in rules alone.
pub load_rules-whole : (doc : RulesDoc) (e : RuleEngine) → Outcome doc (load_rules (parsed doc) e)
unfolding load_rules load_doc replace_rules
load_rules-whole doc e =
    elim (parse_action-cases (get_default doc.default_action (codes "direct"))) [
      | inl (bad, h) ↦ rw h (built_in (inl bad))
      | inr (a, v, h) ↦ elim (from_dicts-cases (get_default doc.domain_rules [])) [
        | inl (bad, k) ↦ rw (h, k) (built_in (inr (inl bad)))
        | inr (ds, es, k) ↦ elim (from_dicts-cases (get_default doc.ip_rules [])) [
          | inl (bad, l) ↦ rw (h, k, l) (built_in (inr (inr bad)))
          | inr (is, fs, l) ↦ rw (h, k, l) (whole ds is a es fs v)
        ]
      ]
    ]
