-- ===== src/Embedded/Models.antt =====
-- .../packs/embeddedops/domain/models.py and simulation/backend.py: firmware, simulations and
-- reports. A confidence is counted in hundredths.
use networkops_ai_agent.Base.{
  String, ℕ, ◌≡◌, arith, Eq, eq_by_rank, List, Option, Bool, is_blank, not, is_empty, ◌&&◌, nat_eq,
  string_eq,
}

pub data Framework : Type 0 where
  arduino esp_idf zephyr freertos : Framework

unfoldable pub framework_value : Framework → String
framework_value arduino = "Arduino"
framework_value esp_idf = "ESP-IDF"
framework_value zephyr = "Zephyr"
framework_value freertos = "FreeRTOS"

pub data ValidationState : Type 0 where
  created generated compile_running compile_failed simulation_running : ValidationState
  simulation_failed debugging retrying passed failed : ValidationState

abbrev pub state_rank : ValidationState → ℕ
state_rank created = 0
state_rank generated = 1
state_rank compile_running = 2
state_rank compile_failed = 3
state_rank simulation_running = 4
state_rank simulation_failed = 5
state_rank debugging = 6
state_rank retrying = 7
state_rank passed = 8
state_rank failed = 9

pub state_rank_injective : (a b : ValidationState) → state_rank a ≡ state_rank b → a ≡ b
state_rank_injective a b h = ground arith

instance abbrev pub state_eq : Eq ValidationState
state_eq = eq_by_rank state_rank state_rank_injective

pub data VerificationErrorCategory : Type 0 where
  compile_error simulation_failure infrastructure_error : VerificationErrorCategory

abbrev pub category_rank : VerificationErrorCategory → ℕ
category_rank compile_error = 0
category_rank simulation_failure = 1
category_rank infrastructure_error = 2

pub category_rank_injective :
    (a b : VerificationErrorCategory) → category_rank a ≡ category_rank b → a ≡ b
category_rank_injective a b h = ground arith

instance abbrev pub category_eq : Eq VerificationErrorCategory
category_eq = eq_by_rank category_rank category_rank_injective

-- What the loop and the simulator read of a `HardwareDesign`.
pub record HardwareDesign : Type 0 where
  pub goal : String
  pub mcu_model : String
  pub peripherals : List String

pub record FirmwareArtifact : Type 0 where
  pub artifact_id : String
  pub design_id : String
  pub filename : String
  pub language : String
  pub framework : Framework
  pub source : String
  pub entry_point : Option String

-- The constraints of the fields, `min_length=1` and `reject_empty_source`.
unfoldable pub is_valid_firmware : FirmwareArtifact → Bool
unfolding is_blank
is_valid_firmware f =
    not (is_empty f.artifact_id)
    && not (is_empty f.design_id)
    && not (is_empty f.filename)
    && not (is_empty f.language)
    && not (is_empty f.source)
    && not (is_blank f.source)

pub record SimulationTestCase : Type 0 where
  pub name : String
  pub expect_in_log : Option String

pub record TestCaseResult : Type 0 where
  pub name : String
  pub passed : Bool
  pub detail : String

pub record SimulationResult : Type 0 where
  pub passed : Bool
  pub error_category : Option VerificationErrorCategory
  pub serial_log : List String
  pub test_results : List TestCaseResult
  pub binary_sha256 : Option String
  pub failure_reason : Option String

pub record CompileResult : Type 0 where
  pub success : Bool
  pub log : List String
  pub errors : List String
  pub binary_sha256 : Option String

pub record VirtualDevice : Type 0 where
  pub device_id : String
  pub mcu_model : String
  pub peripherals : List String

pub record DebugReport : Type 0 where
  pub root_cause : String
  pub remediation : String
  pub confidence : ℕ
  pub patched_firmware : Option FirmwareArtifact

-- The texts of `_report`, by their templates.
pub data Summary : Type 0 where
  passed_after : ℕ → Summary
  infrastructure : Summary
  failed_because : Option String → Summary

pub record VerificationReport : Type 0 where
  pub task_id : String
  pub final_state : ValidationState
  pub iterations : ℕ
  pub error_category : Option VerificationErrorCategory
  pub root_cause : Option String
  pub summary : Summary
  pub artifact_ids : List String
