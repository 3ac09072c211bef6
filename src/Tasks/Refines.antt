-- ===== src/Tasks/Refines.antt =====
-- The store of tasks against a map from identifiers to tasks.
use networkops_ai_agent.Base.Dict
use networkops_ai_agent.Base.{
  String, Option, some, none, ℕ, if◌then◌else◌, ◌==◌, List, [], ◌∷◌, ◌≡◌, refl, Option-cases, inl,
  inr, Bool-cases, subst, eq_iff, ◌∙◌, ap, nat_eq, string_eq,
}
use networkops_ai_agent.Base.Dict.{Dict}
use networkops_ai_agent.Tasks.{
  Task, TaskUpdate, TaskOperation, creates, updates, TaskTable, newer, stamped, updated, apply,
  create_task, update_status, apply_all,
}

-- The specification: what stands under each identifier after an operation.
abbrev pub TaskMap : Type 0
TaskMap = String → Option Task

-- The given text, or the one before it.
abbrev given_or : Option String → Option String → Option String
given_or (some text) before = some text
given_or none before = before

-- A task that was created at an instant, with its own instant of creation where it has one.
abbrev created : Task → ℕ → Option ℕ → Task
created task now at = record {
  task_id = task.task_id;
  goal = task.goal;
  domain = task.domain;
  status = task.status;
  workflow_id = task.workflow_id;
  validation_state = task.validation_state;
  summary = task.summary;
  error = task.error;
  created_at = elim at [ some instant ↦ some instant | none ↦ some now ];
  updated_at = some now;
}

-- A task after an update: its goal, its domain and its creation stay, its status is the new one,
-- and each text that is given replaces the one before it.
abbrev change : TaskUpdate → ℕ → Option Task → Option Task
change update now none = none
change update now (some task) = some (record {
  task_id = task.task_id;
  goal = task.goal;
  domain = task.domain;
  status = update.status;
  workflow_id = given_or update.workflow_id task.workflow_id;
  validation_state = given_or update.validation_state task.validation_state;
  summary = given_or update.summary task.summary;
  error = given_or update.error task.error;
  created_at = task.created_at;
  updated_at = some now;
})

abbrev pub specified : TaskMap → TaskOperation → TaskMap
specified tasks (creates task now) id =
    if task.task_id == id then some (created task now task.created_at) else tasks id
specified tasks (updates task_id update now) id =
    if task_id == id then change update now (tasks id) else tasks id

unfoldable pub specified_all : TaskMap → List TaskOperation → TaskMap
specified_all tasks [] = tasks
specified_all tasks (op ∷ ops) = specified_all (specified tasks op) ops

abbrev pub Refines : TaskTable → TaskMap → Type 0
Refines table tasks = (id : String) → Dict.get table id ≡ tasks id

newer-given_or : (new old : Option String) → newer new old ≡ given_or new old
newer-given_or none old = refl
newer-given_or (some text) old = refl

stamped-created : (task : Task) (now : ℕ) → stamped task now ≡ created task now task.created_at
unfolding stamped
stamped-created task now = elim (Option-cases task.created_at) [
  | inl unknown ↦ rw unknown refl
  | inr (instant, known) ↦ rw known refl
]

updated-change :
    (task : Task) (update : TaskUpdate) (now : ℕ)
    → some (updated task update now) ≡ change update now (some task)
unfolding updated
updated-change task update now =
    rw
      (
        newer-given_or update.workflow_id task.workflow_id,
        newer-given_or update.validation_state task.validation_state,
        newer-given_or update.summary task.summary,
        newer-given_or update.error task.error,
      )
      refl

unknown-get :
    (table : TaskTable) (task_id id : String) (update : TaskUpdate) (now : ℕ)
    → Dict.get table task_id ≡ none
    → Dict.get table id
      ≡ (if task_id == id then change update now (Dict.get table id) else Dict.get table id)
unknown-get table task_id id update now missing = elim (Bool-cases (task_id == id)) [
  | inl same ↦
      let here : Dict.get table id ≡ none =
        subst (λ i. Dict.get table i ≡ none) ((eq_iff task_id id).0 same) missing in
      rw (same, here) refl
  | inr other ↦ rw other refl
]

known-get :
    (table : TaskTable) (task_id id : String) (update : TaskUpdate) (now : ℕ) (task : Task)
    → Dict.get table task_id ≡ some task
    → Dict.get (Dict.put table task_id (updated task update now)) id
      ≡ (if task_id == id then change update now (Dict.get table id) else Dict.get table id)
known-get table task_id id update now task found = elim (Bool-cases (task_id == id)) [
  | inl same ↦
      let here : Dict.get table id ≡ some task =
        subst (λ i. Dict.get table i ≡ some task) ((eq_iff task_id id).0 same) found in
      rw (Dict.get-put table task_id (updated task update now) id, same, here)
        (updated-change task update now)
  | inr other ↦ rw (Dict.get-put table task_id (updated task update now) id, other) refl
]

apply-get :
    (table : TaskTable) (op : TaskOperation) (id : String)
    → Dict.get (apply table op) id ≡ specified (λ i. Dict.get table i) op id
unfolding apply create_task stamped
apply-get table (creates task now) id =
    Dict.get-put table task.task_id (stamped task now) id
    ∙ ap (λ t. if task.task_id == id then some t else Dict.get table id) (stamped-created task now)
apply-get table (updates task_id update now) id = elim (Option-cases (Dict.get table task_id)) [
  | inl missing ↦
      rw (missing, apply, update_status) (unknown-get table task_id id update now missing)
  | inr (task, found) ↦
      rw (found, apply, update_status) (known-get table task_id id update now task found)
]

specified-same :
    (tasks others : TaskMap) (op : TaskOperation)
    → ((id : String) → tasks id ≡ others id)
    → (id : String) → specified tasks op id ≡ specified others op id
specified-same tasks others (creates task now) same id = rw (same id) refl
specified-same tasks others (updates task_id update now) same id = rw (same id) refl

-- Whatever tasks are created and updated in whatever order, the store answers for each identifier
-- what a plain map answers: the last task created under it, with its own instant of creation or
-- the present, and after every later update its new status, the texts that the update gives in
-- place of those before, the same goal, domain and creation, and the instant of the update; an
-- update of an unknown identifier changes nothing.
pub apply_all-Refines :
    (table : TaskTable) (tasks : TaskMap) (ops : List TaskOperation)
    → Refines table tasks
    → Refines (apply_all table ops) (specified_all tasks ops)
unfolding apply_all specified_all
apply_all-Refines table tasks [] h = h
apply_all-Refines table tasks (op ∷ ops) h =
    apply_all-Refines (apply table op) (specified tasks op) ops
      (λ id. apply-get table op id ∙ specified-same (λ i. Dict.get table i) tasks op h id)
