-- ===== src/Embedded/Debug.antt =====
-- .../packs/embeddedops/agents/debug_agent.py: the root cause of a failure and its patch. The
-- digits of a new artifact's id, `uuid4().hex[:8]`, are a parameter.
use networkops_ai_agent.Base.{
  String, Option, List, some, none, if◌then◌else◌, [], Bool, occurs_in, ◌||◌, ℕ, count_char, ◌<>◌,
  splitlines, join, filter, not, repeat_text, nat_beq, ◌-◌, Result, is_empty, ok, err, ◌∷◌, ◌>>=◌,
  nat_eq, string_eq,
}
use networkops_ai_agent.Embedded.Models.{
  VerificationErrorCategory, Framework, CompileResult, SimulationResult, compile_error,
  HardwareDesign, FirmwareArtifact, is_valid_firmware, DebugReport, simulation_failure, state_eq,
  category_eq,
}

-- `_context_from_state`
pub record DebugContext : Type 0 where
  pub goal : String
  pub error_category : Option VerificationErrorCategory
  pub compile_errors : List String
  pub serial_log : List String
  pub failure_reason : Option String
  pub firmware_source : String
  pub framework : Framework

abbrev category_of : CompileResult → Option SimulationResult → Option VerificationErrorCategory
category_of compiled (some simulation) = elim simulation.error_category [
  | some category ↦ some category
  | none ↦ if compiled.success then none else some compile_error
]
category_of compiled none = if compiled.success then none else some compile_error

abbrev serial_log_of : Option SimulationResult → List String
serial_log_of none = []
serial_log_of (some simulation) = simulation.serial_log

abbrev failure_reason_of : Option SimulationResult → Option String
failure_reason_of none = none
failure_reason_of (some simulation) = simulation.failure_reason

unfoldable pub context_from_state :
    HardwareDesign → CompileResult → Option SimulationResult → FirmwareArtifact → DebugContext
context_from_state design compiled simulation firmware = record {
  goal = design.goal;
  error_category = category_of compiled simulation;
  compile_errors = compiled.errors;
  serial_log = serial_log_of simulation;
  failure_reason = failure_reason_of simulation;
  firmware_source = firmware.source;
  framework = firmware.framework;
}

-- `"int main" in source or "void app_main" in source`
unfoldable pub has_entry_point : String → Bool
unfolding occurs_in
has_entry_point source = occurs_in "int main" source || occurs_in "void app_main" source

abbrev pub opened : String → ℕ
opened source = count_char "{" source

abbrev pub closed : String → ℕ
closed source = count_char "}" source

unfoldable pub add_entry_point : String → String
unfolding has_entry_point
add_entry_point source =
    if has_entry_point source then source else "int main(void) { return 0; }\n" <> source

unfoldable pub drop_error_lines : String → String
unfolding occurs_in splitlines join
drop_error_lines source =
    if occurs_in "#error" source
    then join "\n" (filter (λ line. not (occurs_in "#error" line)) (splitlines source))
    else source

-- `"}" * (opened - closed)`: nothing where more braces are closed than opened.
unfoldable pub close_braces : String → String
unfolding count_char repeat_text
close_braces source =
    if nat_beq (opened source) (closed source)
    then source
    else source <> repeat_text "}" (opened source - closed source)

unfoldable pub patched_source : String → String
unfolding add_entry_point drop_error_lines close_braces
patched_source source = close_braces (drop_error_lines (add_entry_point source))

-- The flag `changed`: each of the three tests is made on the source as it then stands.
unfoldable pub is_changed : String → Bool
unfolding has_entry_point occurs_in add_entry_point drop_error_lines count_char
is_changed source =
    not (has_entry_point source)
    || occurs_in "#error" (add_entry_point source)
    || not (
        nat_beq (opened (drop_error_lines (add_entry_point source)))
          (closed (drop_error_lines (add_entry_point source))))

unfoldable pub patched_artifact : String → Framework → String → FirmwareArtifact
unfolding patched_source
patched_artifact fresh framework source = record {
  artifact_id = "fw-" <> fresh;
  design_id = "patched";
  filename = "main.c";
  language = "C";
  framework = framework;
  source = patched_source source;
  entry_point = none;
}

-- `_patched`: a patch that leaves no text is refused by the validation of `FirmwareArtifact`.
unfoldable pub patched : String → DebugContext → Result String (Option FirmwareArtifact)
unfolding is_changed patched_artifact is_valid_firmware
patched fresh context =
    let artifact = patched_artifact fresh context.framework context.firmware_source in
    if is_empty context.firmware_source || not (is_changed context.firmware_source)
    then ok none
    else if is_valid_firmware artifact
    then ok (some artifact)
    else err "ValidationError"

-- `errors[0]`, of `compile_errors or ["unknown compile error"]`.
abbrev first_error : List String → String
first_error [] = "unknown compile error"
first_error (e ∷ errors) = e

-- `value or default`
abbrev text_or : Option String → String → String
text_or none default_text = default_text
text_or (some s) default_text = if is_empty s then default_text else s

unfoldable pub default_diagnosis : String → DebugContext → Result String DebugReport
unfolding patched
default_diagnosis fresh context = elim context.error_category [
  | some compile_error ↦ do
    firmware ← patched fresh context
    ok (record {
      root_cause = "编译失败：" <> first_error context.compile_errors;
      remediation = "根据编译错误修正源码后重新生成固件";
      confidence = 90;
      patched_firmware = firmware;
    })
  | some simulation_failure ↦ do
    firmware ← patched fresh context
    ok (record {
      root_cause = "仿真断言失败：" <> text_or context.failure_reason "未知断言失败";
      remediation = "检查测试断言对应的初始化/上报逻辑并修复";
      confidence = 80;
      patched_firmware = firmware;
    })
  | _ ↦ ok (record {
    root_cause = "未能归类错误类别";
    remediation = "人工介入排查";
    confidence = 30;
    patched_firmware = none;
  })
]

-- A `diagnose` callback returns a report or raises.
abbrev pub Diagnose : Type 0
Diagnose = DebugContext → Result String DebugReport

unfoldable pub run_debug_agent : Option Diagnose → String → DebugContext → Result String DebugReport
unfolding default_diagnosis
run_debug_agent none fresh context = default_diagnosis fresh context
run_debug_agent (some diagnose) fresh context = diagnose context
