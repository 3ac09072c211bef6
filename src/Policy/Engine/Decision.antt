-- ===== src/Policy/Engine/Decision.antt =====
-- What the evaluation decides, for every registry and context.
use networkops_ai_agent.Base.{
  List, Bool, any, ◌&&◌, ◌==◌, if◌then◌else◌, ◌∷◌, ◌≡◌, max_by, map, refl, contains, [], arith,
  filter, any-filter, ◌∙◌, ◌++◌, ◌||◌, true, ◌≤◌, nat_eq, string_eq,
}
use networkops_ai_agent.Policy.Engine.{
  matches, strongest, precedence, DecisionHash, evaluate, matched_rules,
}
use networkops_ai_agent.Policy.Engine.Strongest.{max_by-precedence, contains-map}
use networkops_ai_agent.Policy.Models.{
  PolicyRule, PolicyContext, PolicyEffect, deny, require_approval, allow, effect_eq, operation_eq,
  risk_eq,
}
use networkops_ai_agent.Policy.Registry.{PolicyRegistry}

-- Some rule of the registry matches the context and has the effect.
abbrev pub has_match : List PolicyRule → PolicyContext → PolicyEffect → Bool
has_match rules context effect =
    any (λ rule. matches rule.condition context && rule.effect == effect) rules

-- The decision by its definition in the policy: deny overrides, then approval, then allow, and
-- nothing that no rule allows is allowed.
abbrev pub decision_by_rules : List PolicyRule → PolicyContext → PolicyEffect
decision_by_rules rules context =
    if has_match rules context deny
    then deny
    else if has_match rules context require_approval
    then require_approval
    else if has_match rules context allow
    then allow
    else deny

-- The same over the effects of the matched rules.
abbrev by_effects : List PolicyRule → PolicyEffect
by_effects rules =
    if any (λ r. r.effect == deny) rules
    then deny
    else if any (λ r. r.effect == require_approval) rules
    then require_approval
    else if any (λ r. r.effect == allow) rules
    then allow
    else deny

strongest-cons :
    (r : PolicyRule) (rules : List PolicyRule)
    → strongest (r ∷ rules) ≡ max_by precedence r.effect (map (λ x. x.effect) rules)
unfolding strongest
strongest-cons r rules = refl

strongest-eq-by_effects : (rules : List PolicyRule) → strongest rules ≡ by_effects rules
unfolding any contains
strongest-eq-by_effects [] = unfold strongest in refl
strongest-eq-by_effects (r ∷ rules) = ground (
  arith,
  strongest-cons r rules,
  max_by-precedence r.effect (map (λ x. x.effect) rules),
  contains-map (λ (x : PolicyRule). x.effect) rules deny,
  contains-map (λ (x : PolicyRule). x.effect) rules require_approval,
)

by_effects-matched :
    (rules : List PolicyRule) (context : PolicyContext)
    → by_effects (filter (λ rule. matches rule.condition context) rules)
      ≡ decision_by_rules rules context
by_effects-matched rules context = simp any-filter

-- The decision of the policy engine is the one that its rules define: deny overrides approval,
-- approval overrides allow, and a context that no rule matches is denied.
pub evaluate-decision :
    (h : DecisionHash) (registry : PolicyRegistry) (context : PolicyContext)
    → (evaluate h registry context).decision ≡ decision_by_rules registry.rules context
unfolding evaluate matched_rules
evaluate-decision h registry context =
    strongest-eq-by_effects (matched_rules registry context)
    ∙ by_effects-matched registry.rules context

-- Some rule matches the context.
abbrev pub is_matched : List PolicyRule → PolicyContext → Bool
is_matched rules context = any (λ rule. matches rule.condition context) rules

-- One more rule after others.
any-inserted :
    (p : PolicyRule → Bool) (before after : List PolicyRule) (rule : PolicyRule)
    → any p (before ++ rule ∷ after) ≡ (p rule || any p (before ++ after))
unfolding any
any-inserted p [] after rule = refl
any-inserted p (x ∷ before) after rule = ground (arith, any-inserted p before after rule)

has_match-inserted :
    (before after : List PolicyRule) (rule : PolicyRule) (context : PolicyContext)
    (effect : PolicyEffect)
    → has_match (before ++ rule ∷ after) context effect ≡ (
        (matches rule.condition context && rule.effect == effect)
        || has_match (before ++ after) context effect)
has_match-inserted before after rule context effect =
    any-inserted (λ r. matches r.condition context && r.effect == effect) before after rule

some_effect :
    (effect : PolicyEffect)
    → (effect == deny || (effect == require_approval || effect == allow)) ≡ true
some_effect deny = refl
some_effect require_approval = refl
some_effect allow = refl

is_matched-effects :
    (rules : List PolicyRule) (context : PolicyContext)
    → is_matched rules context ≡ (
        has_match rules context deny
        || (has_match rules context require_approval || has_match rules context allow))
unfolding any
is_matched-effects [] context = refl
is_matched-effects (rule ∷ rules) context =
    ground (arith, some_effect rule.effect, is_matched-effects rules context)

decision-inserted :
    (before after : List PolicyRule) (rule : PolicyRule) (context : PolicyContext)
    → is_matched (before ++ after) context ≡ true
    → precedence (decision_by_rules (before ++ after) context)
      ≤ precedence (decision_by_rules (before ++ rule ∷ after) context)
unfolding precedence
decision-inserted before after rule context h = ground (
  arith,
  is_matched-effects (before ++ after) context,
  has_match-inserted before after rule context deny,
  has_match-inserted before after rule context require_approval,
  has_match-inserted before after rule context allow,
)

rule-decision :
    (before after : List PolicyRule) (rule : PolicyRule) (context : PolicyContext)
    → matches rule.condition context ≡ true
    → precedence rule.effect ≤ precedence (decision_by_rules (before ++ rule ∷ after) context)
unfolding precedence
rule-decision before after rule context h = ground (
  arith,
  some_effect rule.effect,
  has_match-inserted before after rule context deny,
  has_match-inserted before after rule context require_approval,
  has_match-inserted before after rule context allow,
)

-- The registry with other rules.
abbrev pub with_rules : PolicyRegistry → List PolicyRule → PolicyRegistry
with_rules registry rules = record registry { rules = rules }

-- A rule that is put anywhere among the others never weakens a decision that some rule had made,
-- and where it matches, the decision is at least as strict as its effect.
pub evaluate-more_rules :
    (h : DecisionHash) (registry : PolicyRegistry) (before after : List PolicyRule)
    (rule : PolicyRule) (context : PolicyContext)
    → (is_matched (before ++ after) context ≡ true
        → precedence (evaluate h (with_rules registry (before ++ after)) context).decision
          ≤ precedence (evaluate h (with_rules registry (before ++ rule ∷ after)) context).decision)
      × (matches rule.condition context ≡ true
          → precedence rule.effect
            ≤ precedence
                (evaluate h (with_rules registry (before ++ rule ∷ after)) context).decision)
evaluate-more_rules h registry before after rule context =
    rw
      (
        evaluate-decision h (with_rules registry (before ++ after)) context,
        evaluate-decision h (with_rules registry (before ++ rule ∷ after)) context,
      )
      (decision-inserted before after rule context, rule-decision before after rule context)
