-- ===== src/RuleEngine/Order.antt =====
-- The order of the rules in client/core/rule_engine.py: every call leaves both lists in order of
-- priority, and rules of one priority in the order in which they were added.
use vpnself.Prelude.{
  ◌>>=◌, codes, zero, suc, ◌⊎◌, inl, inr, not, ◌&&◌, ℕ, ◌≡◌, refl, Bool, true, false, Option, none,
  some, List, [], ◌∷◌, ◌++◌, take, drop, ltb, length, filter, All, arith, Bool-cases, Option-cases,
  ℤ, pos, negsuc, ltz,
}
use vpnself.Prelude.Sort.{IsSorted, IsOrder, sort_by-IsSorted, filter-sort_by}
use vpnself.RuleEngine.Rules.{parse_action, get_default, Action, Rule, higher}
use vpnself.RuleEngine.{
  from_dicts, RulesDoc, RuleEngine, by_priority, new_engine, add_domain_rule, add_ip_rule,
  replace_rules, remove_at, remove_domain_rule, remove_ip_rule, clear_rules, load_defaults,
  RulesFile, missing, malformed, parsed, load_doc, load_rules,
}

ltz-asym : (a b : ℤ) → ltz a b ≡ true → ltz b a ≡ false
ltz-asym (pos a) (pos b) h = ground arith
ltz-asym (pos a) (negsuc b) h = ground arith
ltz-asym (negsuc a) (pos b) h = ground arith
ltz-asym (negsuc a) (negsuc b) h = ground arith

ltz-steps : (a b c : ℤ) → ltz a b ≡ false → ltz b c ≡ false → ltz a c ≡ false
ltz-steps (pos a) (pos b) (pos c) h k = ground arith
ltz-steps (pos a) (pos b) (negsuc c) h k = ground arith
ltz-steps (pos a) (negsuc b) (pos c) h k = ground arith
ltz-steps (pos a) (negsuc b) (negsuc c) h k = ground arith
ltz-steps (negsuc a) (pos b) c h k = ground arith
ltz-steps (negsuc a) (negsuc b) (pos c) h k = ground arith
ltz-steps (negsuc a) (negsuc b) (negsuc c) h k = ground arith

pub higher-IsOrder : IsOrder higher
higher-IsOrder = record {
  asym = λ r s h. ltz-asym r.priority s.priority h;
  steps = λ r s t h k. ltz-steps r.priority s.priority t.priority h k;
}

pub by_priority-IsSorted : (rs : List Rule) → IsSorted higher (by_priority rs)
unfolding by_priority
by_priority-IsSorted rs = sort_by-IsSorted higher higher-IsOrder rs

-- Both lists are in order of priority.
abbrev pub IsOrdered : RuleEngine → Type 0
IsOrdered e = IsSorted higher e.domain_rules × IsSorted higher e.ip_rules

-- The engines that a sequence of calls leads to.
pub data Reaches : RuleEngine → Type 0 where
  start : Reaches new_engine
  add_domain : (r : Rule) (e : RuleEngine) → Reaches e → Reaches (add_domain_rule r e)
  add_ip : (r : Rule) (e : RuleEngine) → Reaches e → Reaches (add_ip_rule r e)
  replace :
      (ds is : List Rule) (a : Option Action) (e : RuleEngine)
      → Reaches e
      → Reaches (replace_rules ds is a e)
  remove_domain : (i : ℤ) (e : RuleEngine) → Reaches e → Reaches (remove_domain_rule i e).0
  remove_ip : (i : ℤ) (e : RuleEngine) → Reaches e → Reaches (remove_ip_rule i e).0
  clear : (e : RuleEngine) → Reaches e → Reaches (clear_rules e)
  load : (f : RulesFile) (e : RuleEngine) → Reaches e → Reaches (load_rules f e)

All-remove {κ} :
    (P : Rule → Type κ) (i : ℕ) (rs : List Rule) → All P rs → All P (take i rs ++ drop (suc i) rs)
All-remove P zero [] h = tt
All-remove P zero (r ∷ rs) h = h.1
All-remove P (suc i) [] h = tt
All-remove P (suc i) (r ∷ rs) h = (h.0, All-remove P i rs h.1)

remove-IsSorted :
    (i : ℕ) (rs : List Rule) → IsSorted higher rs → IsSorted higher (take i rs ++ drop (suc i) rs)
remove-IsSorted zero [] s = tt
remove-IsSorted zero (r ∷ rs) s = s.1
remove-IsSorted (suc i) [] s = tt
remove-IsSorted (suc i) (r ∷ rs) s =
    (All-remove (λ t. higher t r ≡ false) i rs s.0, remove-IsSorted i rs s.1)

remove_at-IsSorted :
    (i : ℤ) (rs rest : List Rule)
    → remove_at i rs ≡ some rest
    → IsSorted higher rs
    → IsSorted higher rest
remove_at-IsSorted (negsuc i) rs rest h s = absurd cc
remove_at-IsSorted (pos i) rs rest h s = elim (Bool-cases (ltb i (length rs))) [
  | inl e ↦
      let q : rest ≡ take i rs ++ drop (suc i) rs = ground arith in rw q (remove-IsSorted i rs s)
  | inr e ↦ absurd (ground arith)
]

replace_rules-IsOrdered :
    (ds is : List Rule) (a : Option Action) (e : RuleEngine) → IsOrdered (replace_rules ds is a e)
unfolding replace_rules
replace_rules-IsOrdered ds is a e = (by_priority-IsSorted ds, by_priority-IsSorted is)

load_defaults-IsOrdered : IsOrdered load_defaults
unfolding load_defaults
load_defaults-IsOrdered = (by_priority-IsSorted _, by_priority-IsSorted [])

chain-cases :
    (a : Option Action) (ds is : Option (List Rule))
    → let load = λ (e : RuleEngine). a >>= λ action.
        ds >>= λ domain. is >>= λ ip. some (replace_rules domain ip (some action) e) in
      ((e : RuleEngine) → load e ≡ none)
      ⊎ ((ds' : List Rule) × (is' : List Rule) × (a' : Action) × ((e : RuleEngine)
            → load e ≡ some (replace_rules ds' is' (some a') e)))
chain-cases none ds is = inl (λ _. refl)
chain-cases (some a) none is = inl (λ _. refl)
chain-cases (some a) (some ds) none = inl (λ _. refl)
chain-cases (some a) (some ds) (some is) = inr (ds, is, a, λ _. refl)

-- A document either raises an exception or replaces all the rules.
pub load_doc-cases :
    (doc : RulesDoc)
    → (((e' : RuleEngine) → load_doc doc e' ≡ none)
        ⊎ ((ds : List Rule) × (is : List Rule) × (a : Action) × ((e' : RuleEngine)
              → load_doc doc e' ≡ some (replace_rules ds is (some a) e'))))
unfolding load_doc
load_doc-cases doc =
    chain-cases (parse_action (get_default doc.default_action (codes "direct")))
      (from_dicts (get_default doc.domain_rules [])) (from_dicts (get_default doc.ip_rules []))

load_rules-IsOrdered : (f : RulesFile) (e : RuleEngine) → IsOrdered (load_rules f e)
unfolding load_rules
load_rules-IsOrdered missing e = load_defaults-IsOrdered
load_rules-IsOrdered malformed e = load_defaults-IsOrdered
load_rules-IsOrdered (parsed doc) e = elim (load_doc-cases doc) [
  | inl h ↦ rw (h e) load_defaults-IsOrdered
  | inr (ds, is, a, h) ↦ rw (h e) (replace_rules-IsOrdered ds is (some a) e)
]

remove_domain_rule_out :
    (i : ℤ) (e : RuleEngine)
    → remove_at i e.domain_rules ≡ none
    → remove_domain_rule i e ≡ (e, false)
unfolding remove_domain_rule
remove_domain_rule_out i e q = ground (arith, q)

remove_domain_rule_in :
    (i : ℤ) (e : RuleEngine) (rs : List Rule)
    → remove_at i e.domain_rules ≡ some rs
    → remove_domain_rule i e ≡ (record e { domain_rules = rs }, true)
unfolding remove_domain_rule
remove_domain_rule_in i e rs q = ground (arith, q)

remove_domain_rule-IsOrdered :
    (i : ℤ) (e : RuleEngine) → IsOrdered e → IsOrdered (remove_domain_rule i e).0
remove_domain_rule-IsOrdered i e h = elim (Option-cases (remove_at i e.domain_rules)) [
  | inl q ↦ rw (remove_domain_rule_out i e q) h
  | inr (rs, q) ↦
      rw (remove_domain_rule_in i e rs q) (remove_at-IsSorted i e.domain_rules rs q h.0, h.1)
]

remove_ip_rule_out :
    (i : ℤ) (e : RuleEngine) → remove_at i e.ip_rules ≡ none → remove_ip_rule i e ≡ (e, false)
unfolding remove_ip_rule
remove_ip_rule_out i e q = ground (arith, q)

remove_ip_rule_in :
    (i : ℤ) (e : RuleEngine) (rs : List Rule)
    → remove_at i e.ip_rules ≡ some rs
    → remove_ip_rule i e ≡ (record e { ip_rules = rs }, true)
unfolding remove_ip_rule
remove_ip_rule_in i e rs q = ground (arith, q)

remove_ip_rule-IsOrdered : (i : ℤ) (e : RuleEngine) → IsOrdered e → IsOrdered (remove_ip_rule i e).0
remove_ip_rule-IsOrdered i e h = elim (Option-cases (remove_at i e.ip_rules)) [
  | inl q ↦ rw (remove_ip_rule_out i e q) h
  | inr (rs, q) ↦ rw (remove_ip_rule_in i e rs q) (h.0, remove_at-IsSorted i e.ip_rules rs q h.1)
]

add_domain_rule-IsOrdered :
    (r : Rule) (e : RuleEngine) → IsOrdered e → IsOrdered (add_domain_rule r e)
unfolding add_domain_rule
add_domain_rule-IsOrdered r e h = (by_priority-IsSorted (e.domain_rules ++ (r ∷ [])), h.1)

add_ip_rule-IsOrdered : (r : Rule) (e : RuleEngine) → IsOrdered e → IsOrdered (add_ip_rule r e)
unfolding add_ip_rule
add_ip_rule-IsOrdered r e h = (h.0, by_priority-IsSorted (e.ip_rules ++ (r ∷ [])))

-- After any sequence of calls both lists are in order of priority.
pub Reaches-IsOrdered : (e : RuleEngine) → Reaches e → IsOrdered e
Reaches-IsOrdered _ start = (tt, tt)
Reaches-IsOrdered _ (add_domain r e w) = add_domain_rule-IsOrdered r e (Reaches-IsOrdered e w)
Reaches-IsOrdered _ (add_ip r e w) = add_ip_rule-IsOrdered r e (Reaches-IsOrdered e w)
Reaches-IsOrdered _ (replace ds is a e w) = replace_rules-IsOrdered ds is a e
Reaches-IsOrdered _ (remove_domain i e w) = remove_domain_rule-IsOrdered i e (Reaches-IsOrdered e w)
Reaches-IsOrdered _ (remove_ip i e w) = remove_ip_rule-IsOrdered i e (Reaches-IsOrdered e w)
Reaches-IsOrdered _ (clear e w) = unfold clear_rules in (tt, tt)
Reaches-IsOrdered _ (load f e w) = load_rules-IsOrdered f e

abbrev pub same_priority : ℤ → Rule → Bool
same_priority p r = not (ltz p r.priority) && not (ltz r.priority p)

same_priority-even :
    (p : ℤ) (a b : Rule) → same_priority p a ≡ true → same_priority p b ≡ true → higher b a ≡ false
same_priority-even p a b h k = ltz-steps a.priority p b.priority (ground arith) (ground arith)

-- A rule is added behind the rules of its priority, whose order does not change; the rules of
-- every other priority stay as they are.
pub filter-add_domain_rule :
    (p : ℤ) (r : Rule) (e : RuleEngine)
    → filter (same_priority p) (add_domain_rule r e).domain_rules
      ≡ filter (same_priority p) (e.domain_rules ++ (r ∷ []))
unfolding add_domain_rule by_priority
filter-add_domain_rule p r e =
    filter-sort_by higher (same_priority p) (e.domain_rules ++ (r ∷ []))
      (λ a b h k. same_priority-even p a b h k)
