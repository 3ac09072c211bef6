-- ===== src/Policy/Engine.antt =====
-- src/network_agent_rag/policy/engine.py: the evaluation of a context against the rules. The
-- digest of the decision, `sha256(json.dumps(...))`, is a parameter.
pub mod Strongest
pub mod Decision
use networkops_ai_agent.Auth.Models.{Role, role_eq, permission_eq}
use networkops_ai_agent.Base.{
  ℕ, List, Bool, any, contains, Eq, Option, none, true, some, leb, ◌&&◌, length, max_by, [], ◌∷◌,
  map, String, ◌<>◌, filter, nat_eq, string_eq,
}
use networkops_ai_agent.Policy.Models.{
  PolicyEffect, allow, require_approval, deny, PolicyCondition, PolicyContext, PolicyRule,
  effect_value, PolicyDecision, effect_eq, operation_eq, risk_eq,
}
use networkops_ai_agent.Policy.Registry.{PolicyRegistry}

-- `_PRECEDENCE`
unfoldable pub precedence : PolicyEffect → ℕ
precedence allow = 1
precedence require_approval = 2
precedence deny = 3

-- `bool(set(roles).intersection(wanted))`
unfoldable pub intersects : List Role → List Role → Bool
unfolding any contains
intersects roles wanted = any (contains wanted) roles

-- `constraint is None or value in constraint`
abbrev pub admits {ℓ} : {A : Type ℓ} ⦃e : Eq A⦄ → Option (List A) → A → Bool
admits none value = true
admits (some wanted) value = contains wanted value

abbrev admits_roles : Option (List Role) → List Role → Bool
admits_roles none roles = true
admits_roles (some wanted) roles = intersects roles wanted

abbrev at_least : Option ℕ → ℕ → Bool
at_least none count = true
at_least (some bound) count = leb bound count

abbrev at_most : Option ℕ → ℕ → Bool
at_most none count = true
at_most (some bound) count = leb count bound

unfoldable pub matches : PolicyCondition → PolicyContext → Bool
unfolding contains intersects
matches condition context =
    admits condition.operation context.operation
    && admits condition.risk_level context.risk_level
    && admits condition.permission context.permission
    && admits_roles condition.role context.roles
    && at_least condition.min_devices (length context.devices)
    && at_most condition.max_devices (length context.devices)

-- The strongest effect of the matched rules; with none, DENY.
unfoldable pub strongest : List PolicyRule → PolicyEffect
unfolding max_by precedence
strongest [] = deny
strongest (rule ∷ rules) = max_by precedence rule.effect (map (λ r. r.effect) rules)

unfoldable pub reasons_of : List PolicyRule → List String
unfolding effect_value
reasons_of [] = "no_matching_rule:default_deny" ∷ []
reasons_of (rule ∷ rules) =
    map (λ r. "matched:" <> (r.rule_id <> (":" <> effect_value r.effect))) (rule ∷ rules)

-- What is hashed: the context, the matched rules and the decision.
abbrev pub DecisionHash : Type 0
DecisionHash = PolicyContext → List String → PolicyEffect → String

unfoldable pub matched_rules : PolicyRegistry → PolicyContext → List PolicyRule
unfolding filter matches
matched_rules registry context = filter (λ rule. matches rule.condition context) registry.rules

unfoldable pub evaluate : DecisionHash → PolicyRegistry → PolicyContext → PolicyDecision
unfolding matched_rules strongest reasons_of
evaluate decision_hash registry context =
    let matched = matched_rules registry context in
    let decision = strongest matched in
    let matched_ids = map (λ rule. rule.rule_id) matched in
    record {
      decision_id = decision_hash context matched_ids decision;
      decision = decision;
      reasons = reasons_of matched;
      matched_rules = matched_ids;
      timestamp = context.timestamp;
    }
