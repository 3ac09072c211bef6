-- ===== src/Policy/Registry.antt =====
-- src/network_agent_rag/policy/registry.py: the immutable registry of rules and tool classes.
pub mod Resolution
use networkops_ai_agent.Base.Dict
use networkops_ai_agent.Base.{
  List, String, Result, is_blank, strip, [], ok, ◌∷◌, raise_if, ◌==◌, Bool, text_le, has_duplicates,
  sorted, map, Option, none, if◌then◌else◌, some, or_else, ◌>>=◌, ◌>>◌, nat_eq, string_eq,
}
use networkops_ai_agent.Base.Dict.{Dict}
use networkops_ai_agent.Policy.Models.{
  PolicyRule, PolicyOperation, PolicyError, blank_tool_name, unknown, unknown_operation,
  duplicate_tool_name, duplicate_rule_id, effect_eq, operation_eq, risk_eq,
}

pub record PolicyRegistry : Type 0 where
  pub rules : List PolicyRule
  pub tool_operations : Dict String PolicyOperation

-- The loop over `tool_operations.items()`.
unfoldable pub normalize_tools :
    Dict String PolicyOperation
    → List (String × PolicyOperation)
    → Result PolicyError (Dict String PolicyOperation)
unfolding Dict.has Dict.put is_blank strip
normalize_tools normalized [] = ok normalized
normalize_tools normalized ((raw_name, operation) ∷ items) = do
  raise_if (is_blank raw_name) blank_tool_name
  raise_if (operation == unknown) unknown_operation
  let name = strip raw_name
  raise_if (Dict.has normalized name) duplicate_tool_name
  normalize_tools (Dict.put normalized name operation) items

abbrev pub rule_le : PolicyRule → PolicyRule → Bool
rule_le a b = text_le a.rule_id b.rule_id

-- The names are different, so a pair is never compared by its operation.
abbrev pub item_le : String × PolicyOperation → String × PolicyOperation → Bool
item_le a b = text_le a.0 b.0

-- `PolicyRegistry.__init__`
unfoldable pub make_registry :
    List PolicyRule → List (String × PolicyOperation) → Result PolicyError PolicyRegistry
unfolding normalize_tools has_duplicates sorted
make_registry rules tool_operations = do
  raise_if (has_duplicates (map (λ rule. rule.rule_id) rules)) duplicate_rule_id
  normalized ← normalize_tools [] tool_operations
  ok (record { rules = sorted rule_le rules; tool_operations = sorted item_le normalized })

unfoldable pub find_rule : List PolicyRule → String → Option PolicyRule
find_rule [] rule_id = none
find_rule (rule ∷ rules) rule_id =
    let rest = find_rule rules rule_id in if rule.rule_id == rule_id then some rule else rest

unfoldable pub get_rule : PolicyRegistry → String → Option PolicyRule
unfolding find_rule
get_rule registry rule_id = find_rule registry.rules rule_id

unfoldable pub resolve_operation : PolicyRegistry → String → PolicyOperation
unfolding Dict.get strip
resolve_operation registry tool_name =
    or_else (Dict.get registry.tool_operations (strip tool_name)) unknown
