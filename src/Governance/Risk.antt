-- ===== src/Governance/Risk.antt =====
-- src/network_agent_rag/governance/risk.py: the risk score of an operation. The counts of the
-- history are natural numbers; the code refuses negative ones.
pub mod Scores
use networkops_ai_agent.Audit.Store.{actor_id, event_type_eq}
use networkops_ai_agent.Auth.Models.{UserIdentity, role_eq, permission_eq}
use networkops_ai_agent.Base.{
  ℕ, String, List, Bool, has_duplicates, not, nat_beq, length, ◌&&◌, if◌then◌else◌, leb, ◌*◌, [],
  ◌∷◌, ◌++◌, ◌+◌, nat_eq, string_eq,
}

pub data GovernanceOperation : Type 0 where
  gov_view gov_plan gov_restart gov_batch : GovernanceOperation

pub data GovernanceRiskLevel : Type 0 where
  risk_low risk_medium risk_high risk_critical : GovernanceRiskLevel

-- `_BASE_SCORES`
unfoldable pub base_score : GovernanceOperation → ℕ
base_score gov_view = 10
base_score gov_plan = 35
base_score gov_restart = 60
base_score gov_batch = 80

pub record RiskRequest : Type 0 where
  pub incident_id : String
  pub identity : UserIdentity
  pub action : String
  pub operation : GovernanceOperation
  pub devices : List String

-- The validation of the devices: not empty and different.
unfoldable pub is_valid_request : RiskRequest → Bool
unfolding has_duplicates
is_valid_request request =
    not (nat_beq (length request.devices) 0) && not (has_duplicates request.devices)

-- The reasons by their templates, with the number that each adds.
pub data Reason : Type 0 where
  operation_base : GovernanceOperation → ℕ → Reason
  device_scope authorization_history repair_failure_history : ℕ → Reason

pub record RiskAssessment : Type 0 where
  pub assessment_id : String
  pub incident_id : String
  pub actor_id : String
  pub risk_score : ℕ
  pub risk_level : GovernanceRiskLevel
  pub reasons : List Reason
  pub created_at : ℕ

-- `_level`
unfoldable pub level_of : ℕ → GovernanceRiskLevel
level_of score =
    if leb 75 score
    then risk_critical
    else if leb 50 score
    then risk_high
    else if leb 25 score
    then risk_medium
    else risk_low

unfoldable pub device_modifier : ℕ → ℕ
device_modifier count = if leb 6 count then 20 else if leb 2 count then 10 else 0

-- `min(15, count * 5)`
unfoldable pub history_modifier : ℕ → ℕ
history_modifier count = if leb (count * 5) 15 then count * 5 else 15

-- `if modifier: reasons.append(...)`
abbrev append_if : ℕ → Reason → List Reason
append_if modifier reason = if nat_beq modifier 0 then [] else reason ∷ []

unfoldable pub reasons_for : GovernanceOperation → ℕ → ℕ → ℕ → List Reason
unfolding base_score device_modifier history_modifier
reasons_for operation devices denied failures =
    operation_base operation (base_score operation)
      ∷ append_if (device_modifier devices) (device_scope (device_modifier devices))
    ++ append_if (history_modifier denied) (authorization_history (history_modifier denied))
    ++ append_if (history_modifier failures) (repair_failure_history (history_modifier failures))

unfoldable pub score_for : GovernanceOperation → ℕ → ℕ → ℕ → ℕ
unfolding base_score device_modifier history_modifier
score_for operation devices denied failures =
    let total =
      base_score operation
      + device_modifier devices
      + history_modifier denied
      + history_modifier failures in
    if leb total 100 then total else 100

-- `RiskScorer.assess`, with the id and the instant that it is given or makes.
unfoldable pub assess : RiskRequest → ℕ → ℕ → String → ℕ → RiskAssessment
unfolding score_for level_of reasons_for
assess request authorization_denied_count repair_failed_count assessment_id now =
    let count = length request.devices in
    let score = score_for request.operation count authorization_denied_count repair_failed_count in
    record {
      assessment_id = assessment_id;
      incident_id = request.incident_id;
      actor_id = request.identity.user_id;
      risk_score = score;
      risk_level = level_of score;
      reasons = reasons_for request.operation count authorization_denied_count repair_failed_count;
      created_at = now;
    }
