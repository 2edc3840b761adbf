-- ===== src/JobSync.antt =====
-- core/jobsync_engine.py. The digest that makes a task's id and the readings of the clock are arguments;
-- the payload of a task and the durations, which nothing decides on, are left out.
pub mod Queue
mod Tests
use piso_chain.Base.{
  ℕ, zero, suc, ◌+◌, ◌%◌, Bool, true, false, Option, none, some, List, [], ◌∷◌, ◌++◌, length,
  get_elem?, Text, text_key,
}
use piso_chain.Int.{ℤ, pos}
use piso_chain.Text.{codes}
use piso_chain.Dict.{Dict, lookup, insert, values}

pub data TaskStatus : Type 0 where
  pending running completed failed : TaskStatus

pub record JobTask : Type 0 where
  pub task_id : Text
  pub name : Text
  pub category : Text
  pub priority : ℤ
  pub status : TaskStatus
  pub created_at : ℕ
  pub started_at : Option ℕ
  pub completed_at : Option ℕ
  pub assigned_node : Option Text
  pub message : Option Text

-- `JobTask(task_id, name, category, priority, payload)`
unfoldable pub init_task : Text → Text → Text → ℤ → ℕ → JobTask
init_task task_id name category priority now = record {
  task_id = task_id;
  name = name;
  category = category;
  priority = priority;
  status = TaskStatus.pending;
  created_at = now;
  started_at = none;
  completed_at = none;
  assigned_node = none;
  message = none;
}

-- The tasks; the nodes never change.
abbrev pub Tasks : Type 0
Tasks = Dict Text JobTask

abbrev pub active_nodes : List Text
active_nodes =
    codes "validator-manila-01" ∷ codes "validator-singapore-01" ∷ codes "validator-tokyo-01" ∷ []

-- `self.active_nodes[len(self.tasks) % len(self.active_nodes)]`, once the task is stored
unfoldable pub node_for : ℕ → Option Text
node_for count = get_elem? active_nodes (count % 3)

-- `make_id name now count` is the text "JOB-" with the head of the digest.
unfoldable pub schedule_job : (Text → ℕ → ℕ → Text) → Tasks → ℕ → Text → Text → ℤ → Tasks × JobTask
schedule_job make_id tasks now name category priority =
    let task_id = make_id name now (length tasks) in
    let task = init_task task_id name category priority now in
    let stored = insert task_id task tasks in
    let assigned : JobTask = record task { assigned_node = node_for (length stored) } in
    (insert task_id assigned tasks, assigned)

-- `__init__`, with the two tasks that it schedules
unfoldable pub init_tasks : (Text → ℕ → ℕ → Text) → ℕ → ℕ → Tasks
init_tasks make_id now later =
    let first =
      (schedule_job make_id [] now (codes "Reentrancy Scan") (codes "Contract Security Audit")
        (pos 2)).0 in
    (schedule_job make_id first later (codes "OSINT Threat Tracing") (codes "Cyber Forensics")
      (pos 1)).0

abbrev node_name : Option Text → Text
node_name none = codes "None"
node_name (some node) = node

-- the task once it has run
unfoldable pub finished : JobTask → ℕ → ℕ → JobTask
finished task started now = record task {
  status = TaskStatus.completed;
  started_at = some started;
  completed_at = some now;
  message = some (
      codes "Task '"
      ++ (task.name
          ++ (codes "' completed successfully on node "
              ++ (node_name task.assigned_node ++ codes "."))));
}

-- from the test on `task_id`; `none` is the answer that the task is not found
unfoldable pub run_found : Tasks → Text → ℕ → ℕ → Option JobTask → Tasks × Option JobTask
run_found tasks task_id started now none = (tasks, none)
run_found tasks task_id started now (some task) =
    let done = finished task started now in (insert task_id done tasks, some done)

unfoldable pub run_task : Tasks → Text → ℕ → ℕ → Tasks × Option JobTask
run_task tasks task_id started now = run_found tasks task_id started now (lookup task_id tasks)

abbrev pub has_status : TaskStatus → JobTask → ℕ
has_status TaskStatus.pending task = elim task.status [
  | TaskStatus.pending ↦ 1
  | TaskStatus.running ↦ 0
  | TaskStatus.completed ↦ 0
  | TaskStatus.failed ↦ 0
]
has_status TaskStatus.running task = elim task.status [
  | TaskStatus.pending ↦ 0
  | TaskStatus.running ↦ 1
  | TaskStatus.completed ↦ 0
  | TaskStatus.failed ↦ 0
]
has_status TaskStatus.completed task = elim task.status [
  | TaskStatus.pending ↦ 0
  | TaskStatus.running ↦ 0
  | TaskStatus.completed ↦ 1
  | TaskStatus.failed ↦ 0
]
has_status TaskStatus.failed task = elim task.status [
  | TaskStatus.pending ↦ 0
  | TaskStatus.running ↦ 0
  | TaskStatus.completed ↦ 0
  | TaskStatus.failed ↦ 1
]

-- `sum(1 for t in self.tasks.values() if t.status == status)`
unfoldable pub count_status : TaskStatus → Tasks → ℕ
count_status status [] = 0
count_status status ((k, task) ∷ tasks) = has_status status task + count_status status tasks

pub record QueueStats : Type 0 where
  pub total_tasks : ℕ
  pub pending_tasks : ℕ
  pub running_tasks : ℕ
  pub completed_tasks : ℕ
  pub active_worker_nodes : ℕ

unfoldable pub get_queue_stats : Tasks → QueueStats
get_queue_stats tasks = record {
  total_tasks = length tasks;
  pending_tasks = count_status TaskStatus.pending tasks;
  running_tasks = count_status TaskStatus.running tasks;
  completed_tasks = count_status TaskStatus.completed tasks;
  active_worker_nodes = 3;
}
