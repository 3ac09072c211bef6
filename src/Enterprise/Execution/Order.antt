-- ===== src/Enterprise/Execution/Order.antt =====
-- How far an execution goes: in order, up to the first failure, and through listed tools only.
use networkops_ai_agent.Base.{
  Bool, true, false, List, [], ◌∷◌, ◌++◌, ◌≡◌, refl, ap, all, arith, ◌&&◌, not, length, ◌≤◌, ◌+◌,
  suc, length-append, String, Result, ok, subst₂, ok_injective, Option, none, some, if◌then◌else◌,
  nat_eq, string_eq,
}
use networkops_ai_agent.Enterprise.Execution.{
  ActionResult, succeeded, failed, ExecutionStatus, some_failed, Trace, ExecutionResult, Handlers,
  execute, call_handler, completed, stopped, ActionStatus, on_status, run_actions, outcome_of, held,
  run_proposed, blocked, run_with, not_executed, execute_actions, decided_as, approval_is_required,
}
use networkops_ai_agent.Values.{Fields, Value, Items, nil, cons, dict, list, get_field}

abbrev pub is_succeeded : ActionResult → Bool
is_succeeded r = elim r.status [ succeeded ↦ true | failed ↦ false ]

abbrev pub is_failed : ExecutionStatus → Bool
is_failed some_failed = true
is_failed _ = false

-- All items but the last.
abbrev pub init {ℓ} : {A : Type ℓ} → List A → List A
init [] = []
init (x ∷ []) = []
init (x ∷ y ∷ ys) = x ∷ init (y ∷ ys)

init-snoc {ℓ} : {A : Type ℓ} (xs : List A) (x : A) → init (xs ++ x ∷ []) ≡ xs
init-snoc [] x = refl
init-snoc (y ∷ []) x = refl
init-snoc (y ∷ z ∷ zs) x = ap (λ l. y ∷ l) (init-snoc (z ∷ zs) x)

all-init {ℓ} : {A : Type ℓ} (p : A → Bool) (xs : List A) → all p xs ≡ true → all p (init xs) ≡ true
unfolding all
all-init p [] h = refl
all-init p (x ∷ []) h = refl
all-init p (x ∷ y ∷ ys) h = ground (arith, all-init p (y ∷ ys))

all-snoc {ℓ} :
    {A : Type ℓ} (p : A → Bool) (xs : List A) (x : A) → all p (xs ++ x ∷ []) ≡ (all p xs && p x)
unfolding all
all-snoc p [] x = ground arith
all-snoc p (y ∷ ys) x = ground (arith, all-snoc p ys x)

-- The results of a run: all of them succeeded unless the run stopped at a failure, and those
-- before the last one succeeded in any case. No handler was called but for a result.
pub record InOrder (before : Trace) (r : ExecutionResult) (after : Trace) : Type 0 where
  pub verdict : all is_succeeded r.actions ≡ not (is_failed r.status)
  pub earlier : all is_succeeded (init r.actions) ≡ true
  pub calls : length after ≤ length before + length r.actions

length-execute :
    (handlers : Handlers) (action : Fields) (trace : Trace)
    → length (execute handlers action trace).1 ≤ suc (length trace)
unfolding execute call_handler
length-execute handlers action trace = ground arith

module _ (before after : Trace) (results : List ActionResult)
    (good : all is_succeeded results ≡ true) where
  completed-InOrder :
      length after ≤ length before + length results → InOrder before (completed results) after
  completed-InOrder short = record {
    verdict = good;
    earlier = all-init is_succeeded results good;
    calls = short;
  }

  stopped-InOrder :
      (last : ActionResult)
      → last.status ≡ failed
      → length after ≤ suc (length before + length results)
      → InOrder before (stopped (results ++ last ∷ [])) after
  unfolding stopped
  stopped-InOrder last e short = record {
    verdict = ground (arith, all-snoc is_succeeded results last);
    earlier = rw init-snoc good;
    calls = omega (arith, length-append results (last ∷ []));
  }

module _ (render : Value → String) (handlers : Handlers) (before : Trace) where
  -- One pass of the loop, by the status of the result.
  pass-InOrder :
      (s : ActionStatus) (last : ActionResult) (results : List ActionResult) (trace : Trace)
      (go_on : Result String ExecutionResult × Trace) (r : ExecutionResult) (after : Trace)
      → all is_succeeded results ≡ true
      → length trace ≤ suc (length before + length results)
      → last.status ≡ s
      → (all is_succeeded (results ++ last ∷ []) ≡ true
          → length trace ≤ length before + length (results ++ last ∷ [])
          → go_on ≡ (ok r, after)
          → InOrder before r after)
      → on_status s go_on (ok (stopped (results ++ last ∷ [])), trace) ≡ (ok r, after)
      → InOrder before r after
  pass-InOrder succeeded last results trace go_on r after good short e next h =
      next (ground (arith, all-snoc is_succeeded results last))
        (omega (arith, length-append results (last ∷ []))) h
  pass-InOrder failed last results trace go_on r after good short e next h =
      subst₂ (InOrder before) (ok_injective (ap (λ p. p.0) h)) (ap (λ p. p.1) h)
        (stopped-InOrder before trace results good last e short)

  run_actions-InOrder :
      (actions : Items) (results : List ActionResult) (trace : Trace) (r : ExecutionResult)
      (after : Trace)
      → all is_succeeded results ≡ true
      → length trace ≤ length before + length results
      → run_actions render handlers results actions trace ≡ (ok r, after)
      → InOrder before r after
  unfolding run_actions
  run_actions-InOrder nil results trace r after good short h =
      subst₂ (InOrder before) (ok_injective (ap (λ p. p.0) h)) (ap (λ p. p.1) h)
        (completed-InOrder before trace results good short)
  run_actions-InOrder (cons (dict action) rest) results trace r after good short h =
      let (answer, trace') = execute handlers action trace in
      let last = outcome_of render action answer in
      pass-InOrder last.status last results trace'
        (run_actions render handlers (results ++ last ∷ []) rest trace') r after good
        (omega (arith, length-execute handlers action trace)) refl
        (run_actions-InOrder rest (results ++ last ∷ []) trace' r after) h
  run_actions-InOrder (cons v rest) results trace r after good short h = cc

held-InOrder :
    (status : ExecutionStatus) (code message : String) (trace : Trace)
    → is_failed status ≡ false
    → InOrder trace (held status code message) trace
unfolding all
held-InOrder status code message trace e = record {
  verdict = rw e;
  earlier = refl;
  calls = omega arith;
}

run_proposed-InOrder :
    (render : Value → String) (handlers : Handlers) (actions : Value) (trace : Trace)
    (r : ExecutionResult) (after : Trace)
    → run_proposed render handlers actions trace ≡ (ok r, after)
    → InOrder trace r after
unfolding run_proposed
run_proposed-InOrder render handlers (list (cons action rest)) trace r after h =
    run_actions-InOrder render handlers trace (cons action rest) [] trace r after
      (unfold all in refl) (omega arith) h
run_proposed-InOrder render handlers v trace r after h =
    subst₂ (InOrder trace) (ok_injective (ap (λ p. p.0) h)) (ap (λ p. p.1) h)
      (held-InOrder blocked _ _ trace refl)

run_with-InOrder :
    (render : Value → String) (executor : Option Handlers) (actions : Value) (trace : Trace)
    (r : ExecutionResult) (after : Trace)
    → run_with render executor actions trace ≡ (ok r, after)
    → InOrder trace r after
run_with-InOrder render none actions trace r after h =
    subst₂ (InOrder trace) (ok_injective (ap (λ p. p.0) h)) (ap (λ p. p.1) h)
      (held-InOrder blocked _ _ trace refl)
run_with-InOrder render (some handlers) actions trace r after h =
    run_proposed-InOrder render handlers actions trace r after h

refusal-InOrder :
    (code message : String) (trace : Trace) (r : ExecutionResult) (after : Trace)
    → ◌≡◌ {A = Result String ExecutionResult × Trace}
        (ok (held not_executed code message), trace)
        (ok r, after)
    → InOrder trace r after
refusal-InOrder code message trace r after h =
    subst₂ (InOrder trace) (ok_injective (ap (λ p. p.0) h)) (ap (λ p. p.1) h)
      (held-InOrder not_executed code message trace refl)

gate-InOrder :
    (rejected waits : Bool) (trace : Trace) (rest : Result String ExecutionResult × Trace)
    (code message code' message' : String) (r : ExecutionResult) (after : Trace)
    → (rest ≡ (ok r, after) → InOrder trace r after)
    → (if rejected
        then (ok (held not_executed code message), trace)
        else if waits
        then (ok (held not_executed code' message'), trace)
        else rest)
      ≡ (ok r, after)
    → InOrder trace r after
gate-InOrder true waits trace rest code message code' message' r after go h =
    refusal-InOrder code message trace r after h
gate-InOrder false true trace rest code message code' message' r after go h =
    refusal-InOrder code' message' trace r after h
gate-InOrder false false trace rest code message code' message' r after go h = go h

-- When an execution returns, all its results succeeded unless it reports a failure, those before
-- the last one succeeded in any case, and it called no more handlers than it has results.
pub execute_actions-InOrder :
    (render : Value → String) (state : Fields) (executor : Option Handlers) (trace : Trace)
    (r : ExecutionResult) (after : Trace)
    → execute_actions render state executor trace ≡ (ok r, after)
    → InOrder trace r after
unfolding execute_actions
execute_actions-InOrder render state executor trace r after h =
    gate-InOrder (decided_as state "reject")
      (approval_is_required state && not (decided_as state "approve")) trace _ _ _ _ _ r after
      (run_with-InOrder render executor (get_field state "proposed_actions") trace r after) h
