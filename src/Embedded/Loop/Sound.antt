-- ===== src/Embedded/Loop/Sound.antt =====
-- Every run of the loop is sound, and no run lacks fuel.
use networkops_ai_agent.Base.{
  ℕ, List, String, ◌≡◌, suc, ◌>>=◌, ok, subst, sym, err, contains, true, ◌≤◌, ◌+◌, zero, arith,
  refl, [], nat_eq, string_eq,
}
use networkops_ai_agent.Embedded.Loop.{
  Step, Turn, Machine, reported, again, raised, invalid_state_transition, out_of_fuel, Environment,
  Transition, transitions, loop, one_attempt, run,
}
use networkops_ai_agent.Embedded.Loop.Transitions.{SoundTurn, Going, Sound, entries}
use networkops_ai_agent.Embedded.Loop.Turns.{one_attempt-SoundTurn}
use networkops_ai_agent.Embedded.Models.{
  FirmwareArtifact, VerificationReport, retrying, HardwareDesign, SimulationTestCase,
  ValidationState, compile_running, generated, state_eq, category_eq,
}

-- What follows a turn that is sound.
turn-Sound :
    (iterations max_fix : ℕ) (turn : Step Turn)
    (go_on : FirmwareArtifact → ℕ → List String → Machine → Step (VerificationReport × Machine))
    → SoundTurn iterations max_fix turn
    → ((patch : FirmwareArtifact) (ids : List String) (m : Machine)
        → m.current ≡ retrying
        → Going retrying (suc iterations) (suc iterations) max_fix m.observed
        → Sound max_fix (go_on patch (suc iterations) ids m))
    → Sound max_fix (
        turn >>= λ t. elim t [
          | reported made machine ↦ ok (made, machine)
          | again patch next ids machine ↦ go_on patch next ids machine
        ])
turn-Sound iterations max_fix (ok (reported r m)) go_on sound next = sound
turn-Sound iterations max_fix (ok (again patch k ids m)) go_on (at, count, g) next =
    subst (λ n. Sound max_fix (go_on patch n ids m)) (sym count)
      (next patch ids m at (subst (λ n. Going retrying n n max_fix m.observed) count g))
turn-Sound iterations max_fix (err (raised e, m)) go_on sound next = sound
turn-Sound iterations max_fix (err (invalid_state_transition a b, m)) go_on sound next =
    absurd sound
turn-Sound iterations max_fix (err (out_of_fuel, m)) go_on sound next = absurd sound

module _ (env : Environment) (max_fix : ℕ) (task_id : String) (design : HardwareDesign)
    (test_cases : List SimulationTestCase) where
  loop-Sound :
      (fuel attempt : ℕ) (s : ValidationState) (observed : List Transition)
      (firmware : FirmwareArtifact) (iterations : ℕ) (ids : List String)
      → contains (transitions s) compile_running ≡ true
      → Going s iterations iterations max_fix observed
      → suc max_fix ≤ fuel + iterations
      → Sound max_fix (
          loop env max_fix task_id design test_cases fuel attempt
            (record { current = s; observed = observed })
            firmware
            iterations
            ids)
  unfolding loop
  loop-Sound zero attempt s observed firmware iterations ids allowed g enough =
      absurd (omega (arith, g.bounded, enough))
  loop-Sound (suc fuel) attempt s observed firmware iterations ids allowed g enough =
      turn-Sound iterations max_fix
        (one_attempt env max_fix task_id design test_cases (suc attempt)
          (record { current = s; observed = observed }) firmware iterations ids)
        _
        (one_attempt-SoundTurn env max_fix task_id design test_cases s (suc attempt) firmware
          observed iterations ids allowed g)
        (λ patch ids m at g.
          loop-Sound fuel (suc attempt) m.current m.observed patch (suc iterations) ids
            (rw at (unfold transitions contains in refl))
            (subst (λ t. Going t (suc iterations) (suc iterations) max_fix m.observed) (sym at) g)
            (omega arith))

  -- A run of the loop returns a report or passes on an exception of the outside code: it makes no
  -- illegal transition and has fuel enough. A report is made in PASSED or FAILED, after a path of
  -- legal transitions from GENERATED; its iterations are the retries, are at most the budget, and
  -- one less than the compilations; firmware that passed has no error; and exactly an
  -- infrastructure error ends the run from SIMULATION_FAILED without debugging.
  pub run-Sound :
      (firmware : FirmwareArtifact)
      → Sound max_fix (run env max_fix task_id design test_cases firmware)
  unfolding run
  run-Sound firmware =
      loop-Sound (suc max_fix) 0 generated [] firmware 0 [] (unfold transitions contains in refl)
        (record {
          legal = refl;
          retries = unfold entries in refl;
          compiles = unfold entries in refl;
          bounded = omega arith;
        })
        (omega arith)
