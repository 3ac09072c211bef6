-- ===== src/Embedded/Loop/Debugging.antt =====
-- The sound reports of the loop and its debugging cycle.
use networkops_ai_agent.Base.{
  Result, String, ℕ, ◌>>=◌, ok, err, List, ◌∷◌, [], Option, none, some, Bool-cases, is_empty, inl,
  inr, contains, ◌≡◌, true, suc, refl, leb, false, arith, sym, nat_eq, string_eq,
}
use networkops_ai_agent.Embedded.Loop.{
  Machine, Step, Turn, at_machine, Saved, save_artifact, Environment, report_of, report,
  report_json, Transition, transitions, give_up, advance, assert_transition, retry_or_fail,
  debug_cycle, route_failure,
}
use networkops_ai_agent.Embedded.Loop.Transitions.{
  Legal, SoundTurn, SoundReport, Going, ends_undebugged, is_infrastructure, Going-step, entries,
}
use networkops_ai_agent.Embedded.Models.{
  generated, HardwareDesign, SimulationTestCase, VerificationErrorCategory, ValidationState, failed,
  simulation_running, passed, debugging, retrying, FirmwareArtifact, CompileResult,
  SimulationResult, DebugReport, simulation_failed, infrastructure_error, compile_error,
  simulation_failure, state_eq, category_eq,
}

-- What an outside call leaves of a turn.
pub at_machine-SoundTurn :
    {A : Type 0} (m : Machine) (answer : Result String A) (next : A → Step Turn)
    (iterations max_fix : ℕ)
    → Legal generated m.observed m.current
    → ((a : A) → SoundTurn iterations max_fix (next a))
    → SoundTurn iterations max_fix (at_machine m answer >>= next)
at_machine-SoundTurn m (ok a) next iterations max_fix legal sound = sound a
at_machine-SoundTurn m (err e) next iterations max_fix legal sound = legal

saved_by-SoundTurn :
    (m : Machine) (answer : Result String String) (next : List String → Step Turn)
    (iterations max_fix : ℕ)
    → Legal generated m.observed m.current
    → ((ids : List String) → SoundTurn iterations max_fix (next ids))
    → SoundTurn iterations max_fix
        ((at_machine m answer >>= λ artifact_id. ok (artifact_id ∷ [])) >>= next)
saved_by-SoundTurn m (ok a) next iterations max_fix legal sound = sound _
saved_by-SoundTurn m (err e) next iterations max_fix legal sound = legal

pub save_artifact-SoundTurn :
    (store : Option (Saved → Result String String)) (m : Machine) (saved : Saved)
    (next : List String → Step Turn) (iterations max_fix : ℕ)
    → Legal generated m.observed m.current
    → ((ids : List String) → SoundTurn iterations max_fix (next ids))
    → SoundTurn iterations max_fix (save_artifact store m saved >>= next)
unfolding save_artifact
save_artifact-SoundTurn none m saved next iterations max_fix legal sound = sound []
save_artifact-SoundTurn (some save) m saved next iterations max_fix legal sound =
    saved_by-SoundTurn m (save saved) next iterations max_fix legal sound

module _ (env : Environment) (max_fix : ℕ) (task_id : String) (design : HardwareDesign)
    (test_cases : List SimulationTestCase) where
  -- A report is sound when what it says of the run is.
  report-SoundTurn :
      (m : Machine) (iterations : ℕ) (category : Option VerificationErrorCategory)
      (root_cause : Option String) (ids : List String)
      → SoundReport max_fix (report_of task_id m iterations category root_cause ids) m
      → Legal generated m.observed m.current
      → SoundTurn iterations max_fix (report env task_id m iterations category root_cause ids)
  unfolding report
  report-SoundTurn m iterations category root_cause ids sound legal =
      elim (Bool-cases (is_empty task_id)) [
        | inl e ↦ rw e legal
        | inr e ↦ rw e (
            save_artifact-SoundTurn env.save m
              (report_json (report_of task_id m iterations category root_cause ids)) _ iterations
              max_fix legal (λ saved. sound))
      ]

  failed_report :
      (s : ValidationState) (observed : List Transition) (iterations : ℕ)
      (category : Option VerificationErrorCategory) (root_cause : Option String) (ids : List String)
      → contains (transitions s) failed ≡ true
      → Going s (suc iterations) iterations max_fix observed
      → ends_undebugged ((s, failed) ∷ observed) ≡ is_infrastructure category
      → SoundTurn iterations max_fix (
          report env task_id
            (record { current = failed; observed = (s, failed) ∷ observed })
            iterations
            category
            root_cause
            ids)
  unfolding report_of
  failed_report s observed iterations category root_cause ids allowed g undebugged =
      let after =
        Going-step s failed (suc iterations) iterations max_fix observed allowed refl refl g in
      report-SoundTurn _ iterations category root_cause ids
        (record {
          going = after;
          final = refl;
          ended = refl;
          clean = refl;
          undebugged = undebugged;
        })
        after.legal

  pub passed_report :
      (observed : List Transition) (iterations : ℕ) (ids : List String)
      → Going simulation_running (suc iterations) iterations max_fix observed
      → SoundTurn iterations max_fix (
          report env task_id
            (record { current = passed; observed = (simulation_running, passed) ∷ observed })
            iterations
            none
            none
            ids)
  unfolding report_of transitions contains
  passed_report observed iterations ids g =
      let after =
        Going-step simulation_running passed (suc iterations) iterations max_fix observed refl refl
          refl g in
      report-SoundTurn _ iterations none none ids
        (record { going = after; final = refl; ended = refl; clean = refl; undebugged = refl })
        after.legal

  retry-Going :
      (observed : List Transition) (iterations : ℕ)
      → leb max_fix iterations ≡ false
      → Going debugging (suc iterations) iterations max_fix observed
      → Going retrying (suc iterations) (suc iterations) max_fix ((debugging, retrying) ∷ observed)
  unfolding entries transitions contains
  retry-Going observed iterations room g = record {
    legal = (refl, refl, g.legal);
    retries = ground (arith, g.retries);
    compiles = g.compiles;
    bounded = ground arith;
  }

  give_up-SoundTurn :
      (observed : List Transition) (iterations : ℕ) (category : Option VerificationErrorCategory)
      (ids : List String) (root_cause : String)
      → is_infrastructure category ≡ false
      → Going debugging (suc iterations) iterations max_fix observed
      → SoundTurn iterations max_fix (
          give_up env max_fix task_id design test_cases
            (record { current = debugging; observed = observed })
            iterations
            category
            ids
            root_cause)
  unfolding give_up advance assert_transition transitions contains
  give_up-SoundTurn observed iterations category ids root_cause mine g =
      failed_report debugging observed iterations category _ ids refl g (sym mine)

  retry_or_fail-SoundTurn :
      (observed : List Transition) (iterations : ℕ) (category : Option VerificationErrorCategory)
      (ids : List String) (root_cause : String) (patch : Option FirmwareArtifact)
      → is_infrastructure category ≡ false
      → Going debugging (suc iterations) iterations max_fix observed
      → SoundTurn iterations max_fix (
          retry_or_fail env max_fix task_id design test_cases
            (record { current = debugging; observed = observed })
            iterations
            category
            ids
            root_cause
            patch)
  unfolding retry_or_fail advance assert_transition transitions contains
  retry_or_fail-SoundTurn observed iterations category ids root_cause none mine g =
      give_up-SoundTurn observed iterations category ids root_cause mine g
  retry_or_fail-SoundTurn observed iterations category ids root_cause (some patch) mine g =
      elim (Bool-cases (leb max_fix iterations)) [
        | inl e ↦ rw e (give_up-SoundTurn observed iterations category ids root_cause mine g)
        | inr e ↦ rw e (refl, refl, retry-Going observed iterations e g)
      ]

  pub debug_cycle-SoundTurn :
      (s : ValidationState) (attempt : ℕ) (compiled : CompileResult)
      (simulation : Option SimulationResult) (firmware : FirmwareArtifact)
      (observed : List Transition) (iterations : ℕ) (category : Option VerificationErrorCategory)
      (ids : List String)
      → contains (transitions s) debugging ≡ true
      → is_infrastructure category ≡ false
      → Going s (suc iterations) iterations max_fix observed
      → SoundTurn iterations max_fix (
          debug_cycle env max_fix task_id design test_cases attempt
            (record { current = s; observed = observed })
            compiled
            simulation
            firmware
            iterations
            category
            ids)
  unfolding debug_cycle advance assert_transition
  debug_cycle-SoundTurn s attempt compiled simulation firmware observed iterations category ids
        allowed mine g =
      let after =
        Going-step s debugging (suc iterations) iterations max_fix observed allowed refl refl g in
      rw allowed (
        at_machine-SoundTurn {A = DebugReport} _ _ _ iterations max_fix after.legal (λ debug.
          retry_or_fail-SoundTurn _ iterations category ids debug.root_cause debug.patched_firmware
            mine after))

  -- The failure of the environment, and all others.
  pub route_failure-SoundTurn :
      (attempt : ℕ) (compiled : CompileResult) (simulation : SimulationResult)
      (firmware : FirmwareArtifact) (observed : List Transition) (iterations : ℕ)
      (ids : List String) (category : Option VerificationErrorCategory)
      → Going simulation_failed (suc iterations) iterations max_fix observed
      → SoundTurn iterations max_fix (
          route_failure env max_fix task_id design test_cases attempt
            (record { current = simulation_failed; observed = observed })
            compiled
            simulation
            firmware
            iterations
            ids
            category)
  unfolding route_failure advance assert_transition transitions contains
  route_failure-SoundTurn attempt compiled simulation firmware observed iterations ids
        (some infrastructure_error) g =
      failed_report simulation_failed observed iterations _ _ ids refl g refl
  route_failure-SoundTurn attempt compiled simulation firmware observed iterations ids none g =
      debug_cycle-SoundTurn simulation_failed attempt compiled (some simulation) firmware observed
        iterations none ids refl refl g
  route_failure-SoundTurn attempt compiled simulation firmware observed iterations ids
        (some compile_error) g =
      debug_cycle-SoundTurn simulation_failed attempt compiled (some simulation) firmware observed
        iterations (some compile_error) ids refl refl g
  route_failure-SoundTurn attempt compiled simulation firmware observed iterations ids
        (some simulation_failure) g =
      debug_cycle-SoundTurn simulation_failed attempt compiled (some simulation) firmware observed
        iterations (some simulation_failure) ids refl refl g
