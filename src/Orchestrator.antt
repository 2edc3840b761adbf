-- ===== src/Orchestrator.antt =====
-- core/sakura_framework/agent_orchestrator.py. A task stands in the history and under its id: the ids hold
-- the place in the history. The digest of SHA-256 and the clock are arguments; the figures of a task that
-- nothing decides on are left out.
pub mod Approval
mod Tests
use piso_chain.Base.{
  ℕ, zero, suc, ◌+◌, ◌-◌, Bool, true, false, ◌||◌, Option, none, some, List, [], ◌∷◌, ◌++◌, length,
  drop, get_elem?, Text, text_eq, text_key, if◌then◌else◌,
}
use piso_chain.Int.{ℤ, pos, negsuc}
use piso_chain.Text.{codes}
use piso_chain.Text.Numbers.{to_digits}
use piso_chain.Dict.{Dict, lookup, insert}

pub data ExecutionStatus : Type 0 where
  pending_approval executed approved_and_executed : ExecutionStatus

pub record Task : Type 0 where
  pub task_id : Text
  pub target_agent : Text
  pub prompt : Text
  pub status : ExecutionStatus
  pub requires_human_approval : Bool
  pub sha256_proof : Text
  pub timestamp : ℕ
  pub approver_signature : Option Text
  pub approved_at : Option ℕ

pub record Orchestrator : Type 0 where
  pub active_tasks : Dict Text ℕ
  pub execution_history : List Task

unfoldable pub init_orchestrator : Orchestrator
init_orchestrator = record { active_tasks = []; execution_history = [] }

-- `target_agent in ["TreasuryAgent", "ComplianceAgent"]`
unfoldable pub is_high_risk : Text → Bool
is_high_risk target_agent =
    text_eq target_agent (codes "TreasuryAgent") || text_eq target_agent (codes "ComplianceAgent")

abbrev pub first_status : Bool → ExecutionStatus
first_status requires_human_approval =
    if requires_human_approval then ExecutionStatus.pending_approval else ExecutionStatus.executed

-- `milliseconds` and `seconds` are readings of the clock, `clock` the text of another; `flagged` is
-- `params.get("requires_human_approval", False)`.
unfoldable pub new_task : (Text → Text) → ℕ → Text → ℕ → Text → Text → Bool → Task
new_task hexdigest milliseconds clock seconds target_agent prompt flagged =
    let task_id = codes "sakura_task_" ++ to_digits 10 milliseconds in
    let requires_human_approval = flagged || is_high_risk target_agent in
    let raw_proof_str = task_id ++ b':' ∷ (target_agent ++ b':' ∷ (prompt ++ b':' ∷ clock)) in
    record {
      task_id = task_id;
      target_agent = target_agent;
      prompt = prompt;
      status = first_status requires_human_approval;
      requires_human_approval = requires_human_approval;
      sha256_proof = codes "0x" ++ hexdigest raw_proof_str;
      timestamp = seconds;
      approver_signature = none;
      approved_at = none;
    }

unfoldable pub route_agent_task :
    (Text → Text) → ℕ → Text → ℕ → Text → Text → Bool → Orchestrator → Orchestrator × Task
route_agent_task hexdigest milliseconds clock seconds target_agent prompt flagged o =
    let result_data = new_task hexdigest milliseconds clock seconds target_agent prompt flagged in
    (
      record {
        active_tasks = insert result_data.task_id (length o.execution_history) o.active_tasks;
        execution_history = o.execution_history ++ result_data ∷ [];
      },
      result_data,
    )

unfoldable pub approved : Text → ℕ → Task → Task
approved approver_signature now task = record task {
  status = ExecutionStatus.approved_and_executed;
  approver_signature = some approver_signature;
  approved_at = some now;
}

-- the assignments to the task at a place
unfoldable pub update_at : (Task → Task) → ℕ → List Task → List Task
update_at f i [] = []
update_at f zero (task ∷ tasks) = f task ∷ tasks
update_at f (suc i) (task ∷ tasks) = task ∷ update_at f i tasks

-- from the test on the id; `none` is the answer that the task is not found
unfoldable pub approve_found : Text → ℕ → Option ℕ → Orchestrator → Orchestrator × Option Task
approve_found approver_signature now none o = (o, none)
approve_found approver_signature now (some i) o =
    let history = update_at (approved approver_signature now) i o.execution_history in
    (record o { execution_history = history }, get_elem? history i)

unfoldable pub approve_human_in_the_loop_task :
    Text → Text → ℕ → Orchestrator → Orchestrator × Option Task
approve_human_in_the_loop_task task_id approver_signature now o =
    approve_found approver_signature now (lookup task_id o.active_tasks) o

-- `self.execution_history[-limit:]`: all tasks for the limit 0, and all but the first ones below it
unfoldable pub list_recent_tasks : ℤ → Orchestrator → List Task
list_recent_tasks (pos zero) o = o.execution_history
list_recent_tasks (pos (suc n)) o = drop (length o.execution_history - suc n) o.execution_history
list_recent_tasks (negsuc n) o = drop (suc n) o.execution_history
