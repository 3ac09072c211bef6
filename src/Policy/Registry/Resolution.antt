-- ===== src/Policy/Registry/Resolution.antt =====
-- What the registry that is built from rules and tools answers and decides.
use networkops_ai_agent.Base.Dict
use networkops_ai_agent.Base.{
  List, String, Option, [], none, ◌∷◌, if◌then◌else◌, strip, ◌==◌, some, ◌≡◌, ok, ◌≢◌, arith,
  ok_injective, subst, eq_iff, has_duplicates, map, false, sorted, >>=-eq-ok, raise_if, ap, sym,
  or_else, ◌∙◌, Bool, any-sorted, nat_eq, string_eq,
}
use networkops_ai_agent.Base.Dict.{Dict, HasUniqueKeys}
use networkops_ai_agent.Policy.Engine.{DecisionHash, evaluate}
use networkops_ai_agent.Policy.Engine.Decision.{decision_by_rules, evaluate-decision}
use networkops_ai_agent.Policy.Models.{
  PolicyOperation, unknown, PolicyRule, duplicate_rule_id, PolicyContext, effect_eq, operation_eq,
  risk_eq,
}
use networkops_ai_agent.Policy.Registry.{
  normalize_tools, PolicyRegistry, make_registry, rule_le, item_le, resolve_operation,
}

-- The class that the given tools list for a stripped name.
abbrev pub find_tool : List (String × PolicyOperation) → String → Option PolicyOperation
find_tool [] name = none
find_tool ((raw_name, operation) ∷ items) name =
    if strip raw_name == name then some operation else find_tool items name

abbrev first_some {ℓ} : {A : Type ℓ} → Option A → Option A → Option A
first_some none o = o
first_some (some a) o = some a

normalize_tools-cons :
    (n : Dict String PolicyOperation) (raw_name : String) (operation : PolicyOperation)
    (items : List (String × PolicyOperation)) (d : Dict String PolicyOperation)
    → normalize_tools n ((raw_name, operation) ∷ items) ≡ ok d
    → (Dict.get n (strip raw_name) ≡ none)
      × (operation ≢ unknown)
      × (normalize_tools (Dict.put n (strip raw_name) operation) items ≡ ok d)
unfolding normalize_tools Dict.has
normalize_tools-cons n raw_name operation items d h = (ground arith, ground arith, ground arith)

normalize_tools-nil : (n d : Dict String PolicyOperation) → normalize_tools n [] ≡ ok d → n ≡ d
unfolding normalize_tools
normalize_tools-nil n d h = ok_injective h

normalize_tools-HasUniqueKeys :
    (items : List (String × PolicyOperation)) (n d : Dict String PolicyOperation)
    → normalize_tools n items ≡ ok d
    → HasUniqueKeys n
    → HasUniqueKeys d
normalize_tools-HasUniqueKeys [] n d h u = subst HasUniqueKeys (normalize_tools-nil n d h) u
normalize_tools-HasUniqueKeys ((raw_name, operation) ∷ items) n d h u =
    normalize_tools-HasUniqueKeys items (Dict.put n (strip raw_name) operation) d
      (normalize_tools-cons n raw_name operation items d h).2
      (Dict.put-HasUniqueKeys n (strip raw_name) operation u)

normalize_tools-get :
    (items : List (String × PolicyOperation)) (n d : Dict String PolicyOperation) (k : String)
    → normalize_tools n items ≡ ok d
    → Dict.get d k ≡ first_some (Dict.get n k) (find_tool items k)
normalize_tools-get [] n d k h = unfold normalize_tools in (ground arith)
normalize_tools-get ((raw_name, operation) ∷ items) n d k h =
    let (absent, known, rest) = normalize_tools-cons n raw_name operation items d h in
    ground (
      arith,
      normalize_tools-get items (Dict.put n (strip raw_name) operation) d k rest,
      Dict.get-put n (strip raw_name) operation k,
      eq_iff (strip raw_name) k,
      absent,
    )

-- What a successful construction has checked, and what it holds.
pub make_registry-eq_ok :
    (rules : List PolicyRule) (tools : List (String × PolicyOperation)) (registry : PolicyRegistry)
    → make_registry rules tools ≡ ok registry
    → (n : Dict String PolicyOperation) × (normalize_tools [] tools ≡ ok n)
      × (has_duplicates (map (λ rule. rule.rule_id) rules) ≡ false)
      × (registry.rules ≡ sorted rule_le rules)
      × (registry.tool_operations ≡ sorted item_le n)
unfolding make_registry
make_registry-eq_ok rules tools registry h =
    let (checked, unique, h') =
      >>=-eq-ok (raise_if (has_duplicates (map (λ rule. rule.rule_id) rules)) duplicate_rule_id) _
        h in
    let (n, normalized, built) = >>=-eq-ok (normalize_tools [] tools) _ h' in
    (
      n,
      normalized,
      ground arith,
      ap (λ r. r.rules) (sym (ok_injective built)),
      ap (λ r. r.tool_operations) (sym (ok_injective built)),
    )

-- A registry that is built resolves each name, up to surrounding blanks, to the class that the
-- given tools list for it, and every other name to UNKNOWN.
resolve_operation-make_registry :
    (rules : List PolicyRule) (tools : List (String × PolicyOperation)) (registry : PolicyRegistry)
    (name : String)
    → make_registry rules tools ≡ ok registry
    → resolve_operation registry name ≡ or_else (find_tool tools (strip name)) unknown
unfolding resolve_operation
resolve_operation-make_registry rules tools registry name h =
    let (n, normalized, _, _, held) = make_registry-eq_ok rules tools registry h in
    let unique = normalize_tools-HasUniqueKeys tools [] n normalized tt in
    ap (λ o. or_else o unknown)
      (ap (λ d. Dict.get d (strip name)) held
        ∙ Dict.get-sorted item_le n (strip name) unique
        ∙ normalize_tools-get tools [] n (strip name) normalized
        ∙ ap (λ o. first_some o (find_tool tools (strip name))) (Dict.get-nil (strip name)))

decision_by_rules-sorted :
    (le : PolicyRule → PolicyRule → Bool) (rules : List PolicyRule) (c : PolicyContext)
    → decision_by_rules (sorted le rules) c ≡ decision_by_rules rules c
decision_by_rules-sorted le rules c = simp any-sorted

-- The decisions of a registry that is built are those of the rules that it was given, in whatever
-- order they were listed.
pub evaluate-make_registry :
    (h : DecisionHash) (rules : List PolicyRule) (tools : List (String × PolicyOperation))
    (registry : PolicyRegistry) (c : PolicyContext)
    → make_registry rules tools ≡ ok registry
    → (evaluate h registry c).decision ≡ decision_by_rules rules c
evaluate-make_registry h rules tools registry c built =
    let (n, _, _, stored, _) = make_registry-eq_ok rules tools registry built in
    evaluate-decision h registry c
    ∙ ap (λ rs. decision_by_rules rs c) stored
    ∙ decision_by_rules-sorted rule_le rules c
