-- ===== src/JobSync/Queue.antt =====
-- The figures of `get_queue_stats` over every sequence of calls.
use piso_chain.Base.{
  ℕ, zero, suc, ◌+◌, ◌%◌, ◌<◌, ◌≡◌, ◌≢◌, ◌⊎◌, inl, inr, refl, Option, none, some, [], ◌∷◌, length,
  get_elem?, Text, text_key, arith,
}
use piso_chain.Int.{ℤ}
use piso_chain.Dict.{lookup, insert}
use piso_chain.Dict.Values.{AllValues, AllValues-insert, AllValues-lookup, AllValues-map}
use piso_chain.JobSync.{
  active_nodes, JobTask, TaskStatus, Tasks, init_task, node_for, schedule_job, finished, run_found,
  run_task, count_status, get_queue_stats,
}

-- A call that changes the tasks.
pub data Step (tasks : Tasks) : Tasks → Type 0 where
  scheduled :
      (make_id : Text → ℕ → ℕ → Text) (now : ℕ) (name category : Text) (priority : ℤ)
      → Step tasks (schedule_job make_id tasks now name category priority).0
  ran : (task_id : Text) (started now : ℕ) → Step tasks (run_task tasks task_id started now).0

pub data Reach : Tasks → Type 0 where
  empty : Reach []
  next : {before after : Tasks} → Reach before → Step before after → Reach after

-- A task at rest is pending or completed, and has a node.
abbrev IsAtRest : JobTask → Type 0
IsAtRest task =
    ((task.status ≡ TaskStatus.pending) ⊎ (task.status ≡ TaskStatus.completed))
    × (task.assigned_node ≢ none)

below_three : (i : ℕ) → i < 3 → get_elem? active_nodes i ≢ none
below_three zero h e = cc
below_three (suc zero) h e = cc
below_three (suc (suc zero)) h e = cc
below_three (suc (suc (suc i))) h e = absurd (omega (arith, h))

node_for-some : (count : ℕ) → node_for count ≢ none
unfolding node_for
node_for-some count = below_three (count % 3) (omega arith)

of_found :
    (tasks : Tasks) (task_id : Text) (started now : ℕ) (r : Option JobTask)
    → lookup task_id tasks ≡ r
    → AllValues IsAtRest tasks
    → AllValues IsAtRest (run_found tasks task_id started now r).0
unfolding run_found finished
of_found tasks task_id started now none e h = h
of_found tasks task_id started now (some task) e h =
    AllValues-insert IsAtRest task_id (finished task started now) tasks
      (inr refl, (AllValues-lookup IsAtRest task_id task tasks e h).1) h

Step-IsAtRest :
    {before after : Tasks}
    → Step before after
    → AllValues IsAtRest before
    → AllValues IsAtRest after
unfolding schedule_job init_task
Step-IsAtRest {before = tasks} (scheduled make_id now name category priority) h =
    AllValues-insert IsAtRest (make_id name now (length tasks))
      (schedule_job make_id tasks now name category priority).1 tasks
      (
        inl refl,
        node_for-some (
            length (
              insert (make_id name now (length tasks))
                (init_task (make_id name now (length tasks)) name category priority now) tasks)),
      )
      h
Step-IsAtRest {before = tasks} (ran task_id started now) h =
    unfold run_task in of_found tasks task_id started now (lookup task_id tasks) refl h

counted :
    (tasks : Tasks)
    → AllValues IsAtRest tasks
    → (count_status TaskStatus.pending tasks + count_status TaskStatus.completed tasks
        ≡ length tasks)
      × (count_status TaskStatus.running tasks ≡ 0)
unfolding count_status
counted [] h = (refl, refl)
counted ((k, task) ∷ tasks) h =
    let (sum, idle) = counted tasks h.1 in
    elim h.0.0 [
      | inl p ↦ rw p (omega (arith, sum), omega (arith, idle))
      | inr p ↦ rw p (omega (arith, sum), omega (arith, idle))
    ]

Reach-IsAtRest : {tasks : Tasks} → Reach tasks → AllValues IsAtRest tasks
Reach-IsAtRest empty = tt
Reach-IsAtRest (next r st) = Step-IsAtRest st (Reach-IsAtRest r)

-- After any calls of `schedule_job` and `run_task` from no tasks on, even where digests coincide, the
-- pending and the completed tasks add up to all of them, none is running, and each has a node.
pub queue_balanced :
    {tasks : Tasks}
    → Reach tasks
    → ((get_queue_stats tasks).pending_tasks + (get_queue_stats tasks).completed_tasks
        ≡ (get_queue_stats tasks).total_tasks)
      × ((get_queue_stats tasks).running_tasks ≡ 0)
      × AllValues (λ task. task.assigned_node ≢ none) tasks
unfolding get_queue_stats
queue_balanced {tasks} r =
    let rest : AllValues IsAtRest tasks = Reach-IsAtRest r in
    let (sum, idle) = counted tasks rest in
    (
      sum,
      idle,
      AllValues-map IsAtRest (λ task. task.assigned_node ≢ none) tasks (λ task h. h.1) rest,
    )
