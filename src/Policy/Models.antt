-- ===== src/Policy/Models.antt =====
-- src/network_agent_rag/policy/models.py: effects, operations, risk levels, contexts, rules.
use networkops_ai_agent.Auth.Models.{Role, Permission, role_eq, permission_eq}
use networkops_ai_agent.Base.{
  ℕ, ◌≡◌, arith, Eq, eq_by_rank, String, Result, if◌then◌else◌, ◌==◌, ok, err, strip, text_length,
  is_empty, ◌||◌, ltb, List, [], ◌∷◌, has_duplicates, raise_if, nat_beq, length, Option, Bool, none,
  false, some, true, is_none, ◌&&◌, ◌>>=◌, ◌>>◌, nat_eq, string_eq,
}

pub data PolicyEffect : Type 0 where
  allow deny require_approval : PolicyEffect

pub data PolicyOperation : Type 0 where
  view_device_status create_repair_plan restart_device batch_configuration_change : PolicyOperation
  unknown : PolicyOperation

pub data PolicyRiskLevel : Type 0 where
  low medium high critical : PolicyRiskLevel

-- The places of the members in their enumerations.
abbrev pub effect_rank : PolicyEffect → ℕ
effect_rank allow = 0
effect_rank deny = 1
effect_rank require_approval = 2

pub effect_rank_injective : (a b : PolicyEffect) → effect_rank a ≡ effect_rank b → a ≡ b
effect_rank_injective a b h = ground arith

instance abbrev pub effect_eq : Eq PolicyEffect
effect_eq = eq_by_rank effect_rank effect_rank_injective

abbrev pub operation_rank : PolicyOperation → ℕ
operation_rank view_device_status = 0
operation_rank create_repair_plan = 1
operation_rank restart_device = 2
operation_rank batch_configuration_change = 3
operation_rank unknown = 4

pub operation_rank_injective : (a b : PolicyOperation) → operation_rank a ≡ operation_rank b → a ≡ b
operation_rank_injective a b h = ground arith

instance abbrev pub operation_eq : Eq PolicyOperation
operation_eq = eq_by_rank operation_rank operation_rank_injective

abbrev pub risk_rank : PolicyRiskLevel → ℕ
risk_rank low = 0
risk_rank medium = 1
risk_rank high = 2
risk_rank critical = 3

pub risk_rank_injective : (a b : PolicyRiskLevel) → risk_rank a ≡ risk_rank b → a ≡ b
risk_rank_injective a b h = ground arith

instance abbrev pub risk_eq : Eq PolicyRiskLevel
risk_eq = eq_by_rank risk_rank risk_rank_injective

-- `effect.value`
unfoldable pub effect_value : PolicyEffect → String
effect_value allow = "ALLOW"
effect_value deny = "DENY"
effect_value require_approval = "REQUIRE_APPROVAL"

pub data PolicyError : Type 0 where
  bad_identifier no_roles duplicate_roles no_devices duplicate_devices : PolicyError
  no_constraint min_above_max empty_set : PolicyError
  duplicate_rule_id blank_tool_name unknown_operation duplicate_tool_name : PolicyError
  no_action_targets bad_risk_level no_action_id no_tool_name : PolicyError

-- `PolicyRiskLevel(value)`
unfoldable pub parse_risk_level : String → Result PolicyError PolicyRiskLevel
parse_risk_level value =
    if value == "low"
    then ok low
    else if value == "medium"
    then ok medium
    else if value == "high"
    then ok high
    else if value == "critical"
    then ok critical
    else err bad_risk_level

-- `Identifier`: stripped, then 1 to 128 characters.
unfoldable pub identifier : String → Result PolicyError String
unfolding strip text_length
identifier text =
    let stripped = strip text in
    if is_empty stripped || ltb 128 (text_length stripped) then err bad_identifier else ok stripped

unfoldable pub identifiers : List String → Result PolicyError (List String)
unfolding identifier
identifiers [] = ok []
identifiers (x ∷ xs) = do y ← identifier x; ys ← identifiers xs; ok (y ∷ ys)

pub record PolicyContext : Type 0 where
  pub actor_id : String
  pub roles : List Role
  pub permission : Permission
  pub operation : PolicyOperation
  pub tool_name : String
  pub devices : List String
  pub risk_level : PolicyRiskLevel
  pub timestamp : ℕ

-- The validation of a `PolicyContext`: field constraints and `reject_duplicates`. A timestamp is
-- an instant, so that its conversion to UTC changes nothing.
unfoldable pub make_context : PolicyContext → Result PolicyError PolicyContext
unfolding identifier identifiers has_duplicates
make_context raw = do
  actor_id ← identifier raw.actor_id
  raise_if (nat_beq (length raw.roles) 0) no_roles
  raise_if (has_duplicates raw.roles) duplicate_roles
  tool_name ← identifier raw.tool_name
  devices ← identifiers raw.devices
  raise_if (nat_beq (length devices) 0) no_devices
  raise_if (has_duplicates devices) duplicate_devices
  ok (record raw { actor_id = actor_id; tool_name = tool_name; devices = devices })

-- A field that is None puts no constraint.
pub record PolicyCondition : Type 0 where
  pub operation : Option (List PolicyOperation)
  pub risk_level : Option (List PolicyRiskLevel)
  pub permission : Option (List Permission)
  pub role : Option (List Role)
  pub min_devices : Option ℕ
  pub max_devices : Option ℕ

abbrev is_empty_set {ℓ} : {A : Type ℓ} → Option (List A) → Bool
is_empty_set none = false
is_empty_set (some []) = true
is_empty_set (some (x ∷ xs)) = false

abbrev exceeds : Option ℕ → Option ℕ → Bool
exceeds (some least) (some most) = ltb most least
exceeds (some least) none = false
exceeds none _ = false

-- `validate_constraints`
unfoldable pub validate_constraints : PolicyCondition → Result PolicyError (Unit {0})
validate_constraints c = do
  raise_if
      (is_none c.operation
        && is_none c.risk_level
        && is_none c.permission
        && is_none c.role
        && is_none c.min_devices
        && is_none c.max_devices)
      no_constraint
  raise_if (exceeds c.min_devices c.max_devices) min_above_max
  raise_if
      (is_empty_set c.operation
        || is_empty_set c.risk_level
        || is_empty_set c.permission
        || is_empty_set c.role)
      empty_set

pub record PolicyRule : Type 0 where
  pub rule_id : String
  pub name : String
  pub condition : PolicyCondition
  pub effect : PolicyEffect

pub record PolicyDecision : Type 0 where
  pub decision_id : String
  pub decision : PolicyEffect
  pub reasons : List String
  pub matched_rules : List String
  pub timestamp : ℕ
