-- ===== src/Tasks.antt =====
-- src/network_agent_rag/domain/task/: the tasks of all domains and their in-memory store. The store
-- reads its clock once in each operation that writes; the copies that it hands out are values.
pub mod Refines
pub mod Tests
use networkops_ai_agent.Base.Dict
use networkops_ai_agent.Base.{
  Bool, true, false, String, Option, ℕ, Result, is_blank, raise_if, is_empty, ok, none, some,
  or_else, leb, List, filter, sorted, or_raise, err, [], ◌∷◌, ◌>>=◌, ◌>>◌, nat_eq, string_eq,
}
use networkops_ai_agent.Base.Dict.{Dict}

pub data TaskDomain : Type 0 where
  network_domain embedded_domain : TaskDomain

abbrev pub same_domain : TaskDomain → TaskDomain → Bool
same_domain network_domain network_domain = true
same_domain embedded_domain embedded_domain = true
same_domain _ _ = false

pub data TaskStatus : Type 0 where
  task_created task_running awaiting_approval task_completed task_failed : TaskStatus

pub record Task : Type 0 where
  pub task_id : String
  pub goal : String
  pub domain : TaskDomain
  pub status : TaskStatus
  pub workflow_id : Option String
  pub validation_state : Option String
  pub summary : Option String
  pub error : Option String
  pub created_at : Option ℕ
  pub updated_at : Option ℕ

pub data TaskError : Type 0 where
  empty_task_id empty_goal blank_goal unknown_task : TaskError

-- A new task: the lengths of its texts and `reject_blank_goal`.
unfoldable pub make_task : String → String → TaskDomain → Result TaskError Task
unfolding is_blank
make_task task_id goal domain = do
  raise_if (is_empty task_id) empty_task_id
  raise_if (is_empty goal) empty_goal
  raise_if (is_blank goal) blank_goal
  ok (record {
    task_id = task_id;
    goal = goal;
    domain = domain;
    status = task_created;
    workflow_id = none;
    validation_state = none;
    summary = none;
    error = none;
    created_at = none;
    updated_at = none;
  })

abbrev pub TaskTable : Type 0
TaskTable = Dict String Task

-- The task that `create` stores.
unfoldable pub stamped : Task → ℕ → Task
stamped task now = record task {
  created_at = some (or_else task.created_at now);
  updated_at = some now;
}

-- `create`
unfoldable pub create_task : TaskTable → Task → ℕ → Task × TaskTable
unfolding stamped Dict.put
create_task tasks task now =
    let stored = stamped task now in (stored, Dict.put tasks stored.task_id stored)

-- `get`
abbrev pub get_task : TaskTable → String → Option Task
get_task tasks task_id = Dict.get tasks task_id

abbrev in_domain : Option TaskDomain → Task → Bool
in_domain none task = true
in_domain (some domain) task = same_domain task.domain domain

-- The key of the order: the instant of the creation, or the present.
abbrev pub created_le : ℕ → Task → Task → Bool
created_le now a b = leb (or_else a.created_at now) (or_else b.created_at now)

-- `list`
unfoldable pub list_tasks : TaskTable → Option TaskDomain → ℕ → List Task
unfolding filter sorted Dict.values
list_tasks tasks domain now =
    sorted (created_le now) (filter (in_domain domain) (Dict.values tasks))

-- The keyword arguments of `update_status`.
pub record TaskUpdate : Type 0 where
  pub status : TaskStatus
  pub workflow_id : Option String
  pub validation_state : Option String
  pub summary : Option String
  pub error : Option String

abbrev pub newer {ℓ} : {A : Type ℓ} → Option A → Option A → Option A
newer none old = old
newer (some a) old = some a

unfoldable pub updated : Task → TaskUpdate → ℕ → Task
updated task update now = record task {
  status = update.status;
  workflow_id = newer update.workflow_id task.workflow_id;
  validation_state = newer update.validation_state task.validation_state;
  summary = newer update.summary task.summary;
  error = newer update.error task.error;
  updated_at = some now;
}

-- `update_status`
unfoldable pub update_status :
    TaskTable → String → TaskUpdate → ℕ → Result TaskError (Task × TaskTable)
unfolding updated Dict.get Dict.put
update_status tasks task_id update now = do
  task ← or_raise (Dict.get tasks task_id) unknown_task
  let stored = updated task update now
  ok (stored, Dict.put tasks task_id stored)

-- The operations that write, and what a call leaves of the table.
pub data TaskOperation : Type 0 where
  creates : Task → ℕ → TaskOperation
  updates : String → TaskUpdate → ℕ → TaskOperation

abbrev after_update : TaskTable → Result TaskError (Task × TaskTable) → TaskTable
after_update tasks (ok (task, after)) = after
after_update tasks (err e) = tasks

unfoldable pub apply : TaskTable → TaskOperation → TaskTable
unfolding create_task update_status
apply tasks (creates task now) = (create_task tasks task now).1
apply tasks (updates task_id update now) =
    after_update tasks (update_status tasks task_id update now)

unfoldable pub apply_all : TaskTable → List TaskOperation → TaskTable
unfolding apply
apply_all tasks [] = tasks
apply_all tasks (op ∷ ops) = apply_all (apply tasks op) ops
