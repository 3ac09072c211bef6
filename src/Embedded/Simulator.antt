-- ===== src/Embedded/Simulator.antt =====
-- .../packs/embeddedops/simulation/in_process.py: the deterministic simulator. The digest of a
-- binary and the digits of a device's id are parameters.
pub mod Patching
pub mod Repair
use networkops_ai_agent.Base.Dict
use networkops_ai_agent.Base.{
  String, Bool, occurs_in, List, splitlines, strip, count_char, if◌then◌else◌, map, filter, [],
  ◌++◌, ◌∷◌, nat_beq, ℕ, zero, suc, true, ◌<>◌, some, false, none, join, not, or_else, nat_eq,
  string_eq,
}
use networkops_ai_agent.Base.Dict.{Dict}
use networkops_ai_agent.Embedded.Debug.{has_entry_point, opened, closed}
use networkops_ai_agent.Embedded.Models.{
  Framework, CompileResult, framework_value, HardwareDesign, VirtualDevice, SimulationTestCase,
  TestCaseResult, SimulationResult, infrastructure_error, simulation_failure, state_eq, category_eq,
}

abbrev has_marker : String → Bool
has_marker source = occurs_in "SIM_INFRA_TIMEOUT" source

-- The three checks of the source, in the order in which their errors are listed.
unfoldable pub compile_errors_of : String → List String
unfolding occurs_in splitlines strip has_entry_point count_char
compile_errors_of source =
    (if occurs_in "#error" source
      then map strip (filter (λ line. occurs_in "#error" line) (splitlines source))
      else [])
    ++ (if has_entry_point source then [] else "undefined reference to `main`" ∷ [])
    ++ (if nat_beq (opened source) (closed source)
        then []
        else "syntax error: unbalanced braces" ∷ [])

-- `binary_digest[:16]`
unfoldable pub take_text : ℕ → String → String
take_text zero text = ""
take_text (suc n) String.[] = ""
take_text (suc n) (String.◌∷◌ c text) = String.◌∷◌ c (take_text n text)

abbrev compiled_with : (String → String) → String → Framework → List String → CompileResult
compiled_with sha256 source framework [] = record {
  success = true;
  log = ("[compile] OK binary_sha256=" <> (take_text 16 (sha256 ("BIN:" <> source)) <> "…")) ∷ [];
  errors = [];
  binary_sha256 = some (sha256 ("BIN:" <> source));
}
compiled_with sha256 source framework (e ∷ errors) = record {
  success = false;
  log =
      ("[compile] framework=" <> framework_value framework)
      ∷ map (λ item. "[error] " <> item) (e ∷ errors);
  errors = e ∷ errors;
  binary_sha256 = none;
}

unfoldable pub compile_firmware : (String → String) → String → Framework → CompileResult
unfolding compile_errors_of take_text framework_value
compile_firmware sha256 source framework =
    compiled_with sha256 source framework (compile_errors_of source)

unfoldable pub create_virtual_device : String → HardwareDesign → VirtualDevice
create_virtual_device digits design = record {
  device_id = "vdev-" <> digits;
  mcu_model = design.mcu_model;
  peripherals = design.peripherals;
}

unfoldable pub boot_log : VirtualDevice → List String
boot_log device =
    ("[boot] virtual " <> (device.mcu_model <> (" device_id=" <> device.device_id)))
      ∷ map (λ name. "[peripheral:" <> (name <> "] initialized")) device.peripherals
    ++ "[done] simulation complete" ∷ []

unfoldable pub check_case : String → SimulationTestCase → TestCaseResult
unfolding occurs_in
check_case joined c = elim c.expect_in_log [
  | none ↦ record { name = c.name; passed = true; detail = "no assertion" }
  | some expected ↦ record {
    name = c.name;
    passed = occurs_in expected joined;
    detail = "expect '" <> (expected <> "'");
  }
]

-- `_logs`, by the id of the device.
abbrev pub Logs : Type 0
Logs = Dict String (List String)

abbrev timed_out : SimulationResult
timed_out = record {
  passed = false;
  error_category = some infrastructure_error;
  serial_log = [];
  test_results = [];
  binary_sha256 = none;
  failure_reason = some "simulation timed out (infrastructure)";
}

abbrev verdict : List String → List TestCaseResult → List TestCaseResult → SimulationResult
verdict log results [] = record {
  passed = true;
  error_category = none;
  serial_log = log;
  test_results = results;
  binary_sha256 = none;
  failure_reason = none;
}
verdict log results (f ∷ failures) = record {
  passed = false;
  error_category = some simulation_failure;
  serial_log = log;
  test_results = results;
  binary_sha256 = none;
  failure_reason = some (join "; " (map (λ (item : TestCaseResult). item.name) (f ∷ failures)));
}

unfoldable pub run_simulation :
    Logs → VirtualDevice → String → List SimulationTestCase → SimulationResult × Logs
unfolding boot_log check_case join occurs_in filter Dict.put
run_simulation logs device source cases =
    let log = boot_log device in
    let results = map (check_case (join "\n" log)) cases in
    if has_marker source
    then (timed_out, Dict.put logs device.device_id ("[sim] infrastructure timeout" ∷ []))
    else (
      verdict log results (filter (λ (item : TestCaseResult). not item.passed) results),
      Dict.put logs device.device_id log,
    )

unfoldable pub read_serial_log : Logs → VirtualDevice → List String
unfolding Dict.get
read_serial_log logs device = or_else (Dict.get logs device.device_id) []
