-- ===== src/Orchestrator/Approval.antt =====
-- The approval of tasks over every sequence of calls.
use piso_chain.Base.{
  ℕ, zero, suc, ◌≡◌, ◌≢◌, refl, Bool, true, false, ◌||◌, Option, none, some, List, [], ◌∷◌, All,
  All-append, Text, text_key,
}
use piso_chain.Dict.{lookup}
use piso_chain.Orchestrator.{
  ExecutionStatus, Task, Orchestrator, init_orchestrator, is_high_risk, first_status, new_task,
  route_agent_task, approved, update_at, approve_found, approve_human_in_the_loop_task,
}

-- A call that changes the tasks.
pub data Step (o : Orchestrator) : Orchestrator → Type 0 where
  routed :
      (hexdigest : Text → Text) (milliseconds : ℕ) (clock : Text) (seconds : ℕ)
      (target_agent prompt : Text) (flagged : Bool)
      → Step o
          (route_agent_task hexdigest milliseconds clock seconds target_agent prompt flagged o).0
  approval :
      (task_id approver_signature : Text) (now : ℕ)
      → Step o (approve_human_in_the_loop_task task_id approver_signature now o).0

pub data Reach : Orchestrator → Type 0 where
  initial : Reach init_orchestrator
  next : {before after : Orchestrator} → Reach before → Step before after → Reach after

-- A task of a high-risk agent needs an approval; what needs one has not been executed without a
-- signature, what needs none does not wait, and only an approval leaves a signature.
abbrev pub IsGuarded : Task → Type 0
IsGuarded task =
    (is_high_risk task.target_agent ≡ true → task.requires_human_approval ≡ true)
    × (task.requires_human_approval ≡ true → task.status ≢ ExecutionStatus.executed)
    × (task.requires_human_approval ≡ false → task.status ≢ ExecutionStatus.pending_approval)
    × (task.status ≡ ExecutionStatus.approved_and_executed → task.approver_signature ≢ none)

new_task-IsGuarded :
    (hexdigest : Text → Text) (milliseconds : ℕ) (clock : Text) (seconds : ℕ)
    (target_agent prompt : Text) (flagged : Bool)
    → IsGuarded (new_task hexdigest milliseconds clock seconds target_agent prompt flagged)
unfolding new_task
new_task-IsGuarded hexdigest milliseconds clock seconds target_agent prompt flagged =
    guarded_by flagged (is_high_risk target_agent)
  where
    guarded_by :
        (f r : Bool)
        → (r ≡ true → (f || r) ≡ true)
          × ((f || r) ≡ true → first_status (f || r) ≢ ExecutionStatus.executed)
          × ((f || r) ≡ false → first_status (f || r) ≢ ExecutionStatus.pending_approval)
          × (first_status (f || r) ≡ ExecutionStatus.approved_and_executed
              → ◌≢◌ {A = Option Text} none none)
    guarded_by true r = (λ h. refl, λ h e. cc, λ h e. cc, λ h e. cc)
    guarded_by false true = (λ h. refl, λ h e. cc, λ h e. cc, λ h e. cc)
    guarded_by false false = (λ h. h, λ h e. cc, λ h e. cc, λ h e. cc)

approved-IsGuarded :
    (approver_signature : Text) (now : ℕ) (task : Task)
    → IsGuarded task
    → IsGuarded (approved approver_signature now task)
unfolding approved
approved-IsGuarded approver_signature now task h = (h.0, λ k e. cc, λ k e. cc, λ k e. cc)

update_at-All :
    (P : Task → Type 0) (f : Task → Task) (i : ℕ) (tasks : List Task)
    → ((task : Task) → P task → P (f task))
    → All P tasks
    → All P (update_at f i tasks)
unfolding update_at
update_at-All P f i [] k h = h
update_at-All P f zero (task ∷ tasks) k h = (k task h.0, h.1)
update_at-All P f (suc i) (task ∷ tasks) k h = (h.0, update_at-All P f i tasks k h.1)

approve_found-IsGuarded :
    (approver_signature : Text) (now : ℕ) (found : Option ℕ) (o : Orchestrator)
    → All IsGuarded o.execution_history
    → All IsGuarded (approve_found approver_signature now found o).0.execution_history
unfolding approve_found
approve_found-IsGuarded approver_signature now none o h = h
approve_found-IsGuarded approver_signature now (some i) o h =
    update_at-All IsGuarded (approved approver_signature now) i o.execution_history
      (λ task k. approved-IsGuarded approver_signature now task k) h

Step-IsGuarded :
    {before after : Orchestrator}
    → Step before after
    → All IsGuarded before.execution_history
    → All IsGuarded after.execution_history
Step-IsGuarded {before = o}
      (routed hexdigest milliseconds clock seconds target_agent prompt flagged) h =
    unfold route_agent_task in
    All-append IsGuarded o.execution_history
      (new_task hexdigest milliseconds clock seconds target_agent prompt flagged ∷ []) h
      (new_task-IsGuarded hexdigest milliseconds clock seconds target_agent prompt flagged, tt)
Step-IsGuarded {before = o} (approval task_id approver_signature now) h =
    unfold approve_human_in_the_loop_task in
    approve_found-IsGuarded approver_signature now (lookup task_id o.active_tasks) o h

-- Over any tasks and approvals: a task of the treasury or compliance agent needs an approval; a task
-- that needs one is never executed without one, and one that needs none never waits; and an approved
-- task has a signature, although no signature is ever checked.
pub approval_enforced : {o : Orchestrator} → Reach o → All IsGuarded o.execution_history
approval_enforced initial = unfold init_orchestrator in tt
approval_enforced (next r st) = Step-IsGuarded st (approval_enforced r)
