-- ===== src/Embedded/Tests.antt =====
-- The theorems of the validation loop at a concrete backend.
use networkops_ai_agent.Base.{
  ◌∷◌, [], String, none, ok, ◌≡◌, leb, occurs_in, starts_with, refl, some, contains, Option, err,
  false, true, ◌>>=◌, All, nat_eq, string_eq,
}
use networkops_ai_agent.Embedded.Debug.{patched_source, closed, opened}
use networkops_ai_agent.Embedded.Loop.{Environment, run, transitions, Step, Machine}
use networkops_ai_agent.Embedded.Loop.Pass.{
  SoundPass, run_verification_pass, run_verification_pass-SoundPass, VerificationPass,
}
use networkops_ai_agent.Embedded.Loop.Sound.{run-Sound}
use networkops_ai_agent.Embedded.Loop.Transitions.{Sound}
use networkops_ai_agent.Embedded.Mcu.{
  McuRequirements, McuSpec, bus_spi, bus_i2c, bus_uart, bus_adc, bus_gpio, select_mcu, mcu_catalog,
  bus_eq,
}
use networkops_ai_agent.Embedded.Mcu.Least.{IsIn, MeetsNeeds, IsLess, select_mcu-least}
use networkops_ai_agent.Embedded.Models.{
  HardwareDesign, FirmwareArtifact, freertos, generated, ValidationState, passed, state_eq,
  category_eq,
}
use networkops_ai_agent.Embedded.Simulator.{compile_firmware, create_virtual_device, run_simulation}
use networkops_ai_agent.Embedded.Simulator.Repair.{patched_source-compiles}

abbrev a_design : HardwareDesign
a_design = record { goal = "blink"; mcu_model = "esp32"; peripherals = "led" ∷ [] }

abbrev a_firmware : String → FirmwareArtifact
a_firmware source = record {
  artifact_id = "fw-1";
  design_id = "d1";
  filename = "main.c";
  language = "C";
  framework = freertos;
  source = source;
  entry_point = none;
}

abbrev sha : String → String
sha text = text

-- The simulator as the backend of the loop, without a store.
abbrev an_environment : Environment
an_environment = record {
  compile_firmware = λ attempt source framework. ok (compile_firmware sha source framework);
  create_virtual_device = λ attempt design. ok (create_virtual_device "1" design);
  run_simulation = λ attempt device source cases. ok (run_simulation [] device source cases).0;
  diagnose = none;
  fresh = λ attempt. "2";
  save = none;
}

run-Sound_example : Sound 3 (run an_environment 3 "t1" a_design [] (a_firmware "void setup() {"))
run-Sound_example = run-Sound an_environment 3 "t1" a_design [] (a_firmware "void setup() {")

patched_source-compiles_example :
    (compile_firmware sha (patched_source "void setup() {") freertos).success
    ≡ leb (closed "void setup() {") (opened "void setup() {")
patched_source-compiles_example =
    patched_source-compiles sha freertos "void setup() {" (unfold occurs_in starts_with in refl)

run_verification_pass-example :
    SoundPass an_environment 1 a_design (a_firmware "void app_main() {}") [] generated (
      run_verification_pass an_environment 1 a_design
        (a_firmware "void app_main() {}")
        []
        (some (record { current = generated; observed = [] })))
run_verification_pass-example =
    run_verification_pass-SoundPass an_environment 1 a_design (a_firmware "void app_main() {}") []
      generated [] generated (unfold transitions contains in refl) refl

-- This candidate compiles, and its simulation passes.
abbrev pass_state : Step (VerificationPass × Machine) → Option ValidationState
pass_state (ok (pass, machine)) = some pass.state
pass_state (err e) = none

run_verification_pass-passed :
    pass_state (
      run_verification_pass an_environment 1 a_design
        (a_firmware "void app_main() {}")
        []
        (some (record { current = generated; observed = [] })))
    ≡ some passed
unfolding run_verification_pass compile_firmware run_simulation
run_verification_pass-passed = refl

abbrev no_needs : McuRequirements
no_needs = record {
  needs_wifi = false;
  needs_ble = false;
  needs_can = false;
  min_ram_kb = 0;
  min_clock_mhz = 0;
  preferred_model = none;
}

abbrev wireless_needs : McuRequirements
wireless_needs = record no_needs { needs_ble = true; min_ram_kb = 100 }

abbrev nordic : McuSpec
nordic = record {
  family = "Nordic";
  model = "nRF52840";
  core_clock_mhz = 64;
  ram_kb = 256;
  flash_kb = 1024;
  wireless = "BLE" ∷ [];
  interfaces = bus_spi ∷ bus_i2c ∷ bus_uart ∷ bus_adc ∷ bus_gpio ∷ [];
}

select_mcu-wireless : select_mcu wireless_needs ≡ ok nordic
unfolding select_mcu
select_mcu-wireless = refl

-- With CAN asked for too, the need of BLE is dropped.
select_mcu-can :
    (select_mcu (record wireless_needs { needs_can = true })
      >>= (λ (spec : McuSpec). ok spec.wireless))
    ≡ ok []
unfolding select_mcu
select_mcu-can = refl

select_mcu-least_example :
    IsIn nordic mcu_catalog
    × MeetsNeeds wireless_needs nordic
    × All (λ other. MeetsNeeds wireless_needs other → ¬ IsLess other nordic) mcu_catalog
select_mcu-least_example = select_mcu-least wireless_needs nordic refl select_mcu-wireless
