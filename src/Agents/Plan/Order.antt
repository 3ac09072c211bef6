-- ===== src/Agents/Plan/Order.antt =====
-- What the checks of a plan say of the order of its agents.
use networkops_ai_agent.Agents.Plan.{
  AgentName, agents_eq, last_is, report, in_order, diagnosis, EvidenceSource, check_agents,
  double_agents, no_diagnosis, report_not_last, bad_requires_repair, beq_bool, repair,
  repair_mismatch, bad_order, PlanError, SupervisorPlan, validate_supervisor_plan, first_pending,
  all_agents, agent_eq, source_eq,
}
use networkops_ai_agent.Base.{
  List, ◌≡◌, true, [], refl, ◌∷◌, arith, eq_iff, contains, Bool, not, false, Option, Returns,
  raise_if-eq-ok, has_duplicates, >>=-eq-ok, or_raise, ◌>>=◌, ok, Returns-bind, Returns-ok,
  Returns-after, filter, some, none, Bool-cases, inl, inr, ◌==◌, subst, nat_eq, string_eq,
}
use networkops_ai_agent.Values.{Fields, Value}

agents_eq-eq : (xs ys : List AgentName) → agents_eq xs ys ≡ true → xs ≡ ys
unfolding agents_eq
agents_eq-eq [] [] h = refl
agents_eq-eq [] (y ∷ ys) h = cc
agents_eq-eq (x ∷ xs) [] h = cc
agents_eq-eq (x ∷ xs) (y ∷ ys) h = ground (arith, eq_iff x y, agents_eq-eq xs ys)

contains-last :
    (agents : List AgentName) → last_is report agents ≡ true → contains agents report ≡ true
unfolding contains
contains-last [] h = cc
contains-last (x ∷ []) h = rw h refl
contains-last (x ∷ y ∷ xs) h = ground (arith, contains-last (y ∷ xs))

not-false : (b : Bool) → not b ≡ false → b ≡ true
not-false true h = refl
not-false false h = cc

-- Of a plan that passed the checks: its agents stand in the order of the dependencies, and the
-- diagnosis and the report are among them.
pub record IsOrdered (agents : List AgentName) : Type 0 where
  pub ordered : agents ≡ in_order agents
  pub diagnoses : contains agents diagnosis ≡ true
  pub reports : contains agents report ≡ true

check_agents-IsOrdered :
    (agents : List AgentName) (repairs : Option Bool) (sources : List EvidenceSource)
    → Returns (λ _. IsOrdered agents) (check_agents agents repairs sources)
unfolding check_agents
check_agents-IsOrdered agents repairs sources = record {
  at = λ b h.
      let (_, h1) = raise_if-eq-ok (has_duplicates agents) double_agents _ h in
      let (d, h2) = raise_if-eq-ok (not (contains agents diagnosis)) no_diagnosis _ h1 in
      let (r, h3) = raise_if-eq-ok (not (last_is report agents)) report_not_last _ h2 in
      let (requires, _, h4) = >>=-eq-ok (or_raise repairs bad_requires_repair) _ h3 in
      let (_, h5) =
        raise_if-eq-ok (not (beq_bool requires (contains agents repair))) repair_mismatch _ h4 in
      let (o, _) = raise_if-eq-ok (not (agents_eq agents (in_order agents))) bad_order _ h5 in
      record {
        ordered = agents_eq-eq agents (in_order agents) (not-false _ o);
        diagnoses = not-false _ d;
        reports = contains-last agents (not-false _ r);
      };
}

plan-IsOrdered :
    (analysis : Fields) (sources : List EvidenceSource) (agents : List AgentName)
    (repairs : Option Bool)
    → Returns {E = PlanError}
        (λ (plan : SupervisorPlan). IsOrdered plan.required_agents)
        (check_agents agents repairs sources >>= λ requires. ok (record {
          analysis = analysis;
          sources = sources;
          required_agents = agents;
          requires_repair = requires;
        }))
plan-IsOrdered analysis sources agents repairs =
    Returns-bind (check_agents agents repairs sources) _
      (check_agents-IsOrdered agents repairs sources) (λ requires ordered. Returns-ok ordered)

pub validate_supervisor_plan-IsOrdered :
    (value : Value)
    → Returns
        (λ (plan : SupervisorPlan). IsOrdered plan.required_agents)
        (validate_supervisor_plan value)
unfolding validate_supervisor_plan
validate_supervisor_plan-IsOrdered value = search (Returns-after, plan-IsOrdered) depth 20

pub diagnosis_first :
    (p : AgentName → Bool) (pending : List AgentName)
    → p diagnosis ≡ true
    → first_pending (filter p all_agents) pending ≡ some repair
    → contains pending diagnosis ≡ false
unfolding first_pending filter
diagnosis_first p pending h k = ground arith

pub first_pending-none :
    (agents pending : List AgentName) (a : AgentName)
    → contains agents a ≡ true
    → first_pending agents pending ≡ none
    → contains pending a ≡ false
unfolding first_pending contains
first_pending-none [] pending a h k = cc
first_pending-none (x ∷ agents) pending a h k = elim (Bool-cases (contains pending x)) [
  | inl here ↦ ground (arith, here)
  | inr away ↦ elim (Bool-cases (x == a)) [
    | inl same ↦ subst (λ y. contains pending y ≡ false) ((eq_iff x a).0 same) away
    | inr other ↦ first_pending-none agents pending a (ground (arith, other)) (ground (arith, away))
  ]
]

pub first_pending-some :
    (agents pending : List AgentName) (a : AgentName)
    → first_pending agents pending ≡ some a
    → contains pending a ≡ true
unfolding first_pending
first_pending-some [] pending a k = cc
first_pending-some (x ∷ agents) pending a k = elim (Bool-cases (contains pending x)) [
  | inl here ↦
      let same : x ≡ a = (cc (rw here at k)) in subst (λ y. contains pending y ≡ true) same here
  | inr away ↦ first_pending-some agents pending a (rw away at k)
]

pub first_pending-nil : (agents : List AgentName) → first_pending agents [] ≡ none
unfolding first_pending contains
first_pending-nil [] = refl
first_pending-nil (x ∷ agents) = first_pending-nil agents
