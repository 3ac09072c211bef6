-- ===== src/Governance/Risk/Scores.antt =====
-- What a risk score is made of, and how far it goes.
use networkops_ai_agent.Base.{
  ℕ, List, [], ◌∷◌, ◌+◌, String, ◌≡◌, if◌then◌else◌, leb, arith, ◌≤◌, length, nat_eq, string_eq,
}
use networkops_ai_agent.Governance.Risk.{
  Reason, operation_base, device_scope, authorization_history, repair_failure_history,
  GovernanceRiskLevel, risk_low, risk_medium, risk_high, risk_critical, RiskRequest, assess,
  score_for, reasons_for, device_modifier, history_modifier, GovernanceOperation, base_score,
  level_of, gov_view, gov_plan, gov_restart, gov_batch,
}

abbrev pub added_by : Reason → ℕ
added_by (operation_base operation n) = n
added_by (device_scope n) = n
added_by (authorization_history n) = n
added_by (repair_failure_history n) = n

unfoldable pub total_of : List Reason → ℕ
total_of [] = 0
total_of (reason ∷ reasons) = added_by reason + total_of reasons

abbrev pub level_rank : GovernanceRiskLevel → ℕ
level_rank risk_low = 0
level_rank risk_medium = 1
level_rank risk_high = 2
level_rank risk_critical = 3

-- The score of an assessment is the sum of what its listed reasons add, cut at 100.
assess-explained :
    (request : RiskRequest) (denied failures : ℕ) (id : String) (now : ℕ)
    → (assess request denied failures id now).risk_score ≡ (
        if leb (total_of (assess request denied failures id now).reasons) 100
        then total_of (assess request denied failures id now).reasons
        else 100)
unfolding assess score_for reasons_for total_of
assess-explained request denied failures id now = ground arith

device_modifier_mono : (a b : ℕ) → a ≤ b → device_modifier a ≤ device_modifier b
unfolding device_modifier
device_modifier_mono a b h = ground arith

history_modifier_mono : (a b : ℕ) → a ≤ b → history_modifier a ≤ history_modifier b
unfolding history_modifier
history_modifier_mono a b h = ground arith

capped_mono : (a b : ℕ) → a ≤ b → (if leb a 100 then a else 100) ≤ (if leb b 100 then b else 100)
capped_mono a b h = ground arith

score_for_mono :
    (operation : GovernanceOperation) (m n denied denied' failures failures' : ℕ)
    → m ≤ n
    → denied ≤ denied'
    → failures ≤ failures'
    → score_for operation m denied failures ≤ score_for operation n denied' failures'
unfolding score_for
score_for_mono operation m n denied denied' failures failures' h k l =
    let devices_grow = device_modifier_mono m n h in
    let denials_grow = history_modifier_mono denied denied' k in
    let failures_grow = history_modifier_mono failures failures' l in
    capped_mono
      (base_score operation
        + device_modifier m
        + history_modifier denied
        + history_modifier failures)
      (base_score operation
        + device_modifier n
        + history_modifier denied'
        + history_modifier failures')
      (omega (arith, devices_grow, denials_grow, failures_grow))

level_of_mono : (a b : ℕ) → a ≤ b → level_rank (level_of a) ≤ level_rank (level_of b)
unfolding level_of
level_of_mono a b h = ground arith

-- More devices and a worse history never lower the score of an operation nor its level.
pub assess_mono :
    (request : RiskRequest) (devices : List String) (denied denied' failures failures' : ℕ)
    (id : String) (now : ℕ)
    → length request.devices ≤ length devices
    → denied ≤ denied'
    → failures ≤ failures'
    → ((assess request denied failures id now).risk_score
        ≤ (assess (record request { devices = devices }) denied' failures' id now).risk_score)
      × (level_rank (assess request denied failures id now).risk_level
          ≤ level_rank
              (assess (record request { devices = devices }) denied' failures' id now).risk_level)
unfolding assess
assess_mono request devices denied denied' failures failures' id now h k l =
    let grows =
      score_for_mono request.operation (length request.devices) (length devices) denied denied'
        failures failures' h k l in
    (grows, level_of_mono _ _ grows)

-- The lowest and the highest level that an operation may be given.
abbrev pub least_level : GovernanceOperation → GovernanceRiskLevel
least_level gov_view = risk_low
least_level gov_plan = risk_medium
least_level gov_restart = risk_high
least_level gov_batch = risk_critical

abbrev pub most_level : GovernanceOperation → GovernanceRiskLevel
most_level gov_view = risk_high
most_level _ = risk_critical

-- A score is at most 100, and each operation has its range of levels: looking at a device is at
-- most high, a plan is at least medium, a restart at least high and a batch change always
-- critical.
pub assess-range :
    (request : RiskRequest) (denied failures : ℕ) (id : String) (now : ℕ)
    → ((assess request denied failures id now).risk_score ≤ 100)
      × (level_rank (least_level request.operation)
          ≤ level_rank (assess request denied failures id now).risk_level)
      × (level_rank (assess request denied failures id now).risk_level
          ≤ level_rank (most_level request.operation))
unfolding assess score_for level_of device_modifier history_modifier base_score
assess-range request denied failures id now = ground arith
