-- ===== src/Embedded/Loop/Transitions.antt =====
-- The transitions that a run goes through: legal ones only, and counted.
use networkops_ai_agent.Base.{
  List, [], ◌≡◌, ◌∷◌, contains, true, ℕ, if◌then◌else◌, ◌==◌, suc, Bool, false, Option, some, ◌≤◌,
  ◌||◌, is_none, ok, err, refl, nat_eq, string_eq,
}
use networkops_ai_agent.Embedded.Loop.{
  Transition, transitions, Machine, Step, raised, invalid_state_transition, out_of_fuel, Turn,
  reported, again,
}
use networkops_ai_agent.Embedded.Models.{
  ValidationState, simulation_failed, failed, VerificationErrorCategory, infrastructure_error,
  generated, retrying, compile_running, VerificationReport, passed, state_eq, category_eq,
}

-- A list of transitions, the last first, leads from one state to another by the table.
abbrev pub Legal : ValidationState → List Transition → ValidationState → Type 0
Legal first [] last = first ≡ last
Legal first ((a, b) ∷ earlier) last =
    (b ≡ last) × (contains (transitions a) b ≡ true) × Legal first earlier a

-- How often a state was entered.
unfoldable pub entries : ValidationState → List Transition → ℕ
entries s [] = 0
entries s ((a, b) ∷ earlier) = let n = entries s earlier in if b == s then suc n else n

-- A simulation's failure that led to the end without debugging.
abbrev pub ends_undebugged : List Transition → Bool
ends_undebugged ((simulation_failed, failed) ∷ earlier) = true
ends_undebugged _ = false

abbrev pub is_infrastructure : Option VerificationErrorCategory → Bool
is_infrastructure (some infrastructure_error) = true
is_infrastructure _ = false

-- A run that stands in a state, with its attempts and retries.
pub record Going (s : ValidationState) (attempts iterations max_fix : ℕ)
    (observed : List Transition) : Type 0 where
  pub legal : Legal generated observed s
  pub retries : entries retrying observed ≡ iterations
  pub compiles : entries compile_running observed ≡ attempts
  pub bounded : iterations ≤ max_fix

-- A report of a run: it ended in PASSED or FAILED by legal transitions, the retries are its
-- iterations and stay in the budget, each retry compiled once more, the firmware that passed has
-- no error, and exactly an infrastructure error ended it without debugging.
pub record SoundReport (max_fix : ℕ) (r : VerificationReport) (m : Machine) : Type 0 where
  pub going : Going m.current (suc r.iterations) r.iterations max_fix m.observed
  pub final : r.final_state ≡ m.current
  pub ended : (m.current == passed || m.current == failed) ≡ true
  pub clean : (if m.current == passed then is_none r.error_category else true) ≡ true
  pub undebugged : ends_undebugged m.observed ≡ is_infrastructure r.error_category

-- What a run may come to: a sound report, or an exception of the outside code on the way. It never
-- makes an illegal transition, and the fuel is enough.
abbrev pub Sound : ℕ → Step (VerificationReport × Machine) → Type 0
Sound max_fix (ok (r, m)) = SoundReport max_fix r m
Sound max_fix (err (raised e, m)) = Legal generated m.observed m.current
Sound max_fix (err (invalid_state_transition a b, m)) = ⊥
Sound max_fix (err (out_of_fuel, m)) = ⊥

-- The same of one turn: it reports, or schedules the next iteration.
abbrev pub SoundTurn : ℕ → ℕ → Step Turn → Type 0
SoundTurn iterations max_fix (ok (reported r m)) = SoundReport max_fix r m
SoundTurn iterations max_fix (ok (again firmware next ids m)) =
    (m.current ≡ retrying) × (next ≡ suc iterations) × Going retrying next next max_fix m.observed
SoundTurn iterations max_fix (err (raised e, m)) = Legal generated m.observed m.current
SoundTurn iterations max_fix (err (invalid_state_transition a b, m)) = ⊥
SoundTurn iterations max_fix (err (out_of_fuel, m)) = ⊥

-- One more transition that is no retry and no new attempt.
pub Going-step :
    (s t : ValidationState) (attempts iterations max_fix : ℕ) (observed : List Transition)
    → contains (transitions s) t ≡ true
    → (t == retrying) ≡ false
    → (t == compile_running) ≡ false
    → Going s attempts iterations max_fix observed
    → Going t attempts iterations max_fix ((s, t) ∷ observed)
unfolding entries
Going-step s t attempts iterations max_fix observed allowed no_retry no_attempt g = record {
  legal = (refl, allowed, g.legal);
  retries = rw no_retry g.retries;
  compiles = rw no_attempt g.compiles;
  bounded = g.bounded;
}
