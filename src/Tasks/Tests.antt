-- ===== src/Tasks/Tests.antt =====
-- The store of tasks at concrete tasks.
use networkops_ai_agent.Base.Dict
use networkops_ai_agent.Base.{none, some, List, ◌∷◌, [], map, ◌≡◌, refl, nat_eq, string_eq}
use networkops_ai_agent.Base.Dict.{Dict}
use networkops_ai_agent.Tasks.{
  Task, network_domain, task_created, embedded_domain, TaskUpdate, task_completed, TaskOperation,
  creates, updates, list_tasks, apply_all,
}
use networkops_ai_agent.Tasks.Refines.{Refines, specified_all, apply_all-Refines}

abbrev first_task : Task
first_task = record {
  task_id = "net-000001";
  goal = "restart r1";
  domain = network_domain;
  status = task_created;
  workflow_id = none;
  validation_state = none;
  summary = none;
  error = none;
  created_at = none;
  updated_at = none;
}

abbrev second_task : Task
second_task = record first_task {
  task_id = "emb-000002";
  domain = embedded_domain;
  created_at = some 1;
}

abbrev finished_with : TaskUpdate
finished_with = record {
  status = task_completed;
  workflow_id = none;
  validation_state = none;
  summary = some "done";
  error = none;
}

abbrev three_operations : List TaskOperation
three_operations =
    creates first_task 4
    ∷ creates second_task 5
    ∷ updates "net-000001" finished_with 6
    ∷ updates "net-000009" finished_with 7
    ∷ []

-- The task of the earlier creation comes first.
listed-ids :
    map (λ (task : Task). task.task_id) (list_tasks (apply_all [] three_operations) none 9)
    ≡ "emb-000002" ∷ "net-000001" ∷ []
unfolding list_tasks apply_all
listed-ids = refl

empty-Refines : Refines [] (λ id. none)
empty-Refines id = Dict.get-nil id

apply_all-Refines_example :
    Refines (apply_all [] three_operations) (specified_all (λ id. none) three_operations)
apply_all-Refines_example = apply_all-Refines [] (λ id. none) three_operations empty-Refines
