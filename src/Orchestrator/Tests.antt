-- ===== src/Orchestrator/Tests.antt =====
-- A task of the treasury agent, and one of another agent in the same millisecond.
use piso_chain.Base.{◌≡◌, refl, false, List, [], ◌∷◌, map, length, All, Text, text_eq, text_key}
use piso_chain.Int.{pos}
use piso_chain.Text.{codes}
use piso_chain.Text.Numbers.{to_digits, digit_char}
use piso_chain.Dict.{lookup, insert}
use piso_chain.Orchestrator.{
  ExecutionStatus, Orchestrator, init_orchestrator, is_high_risk, new_task, route_agent_task,
  approved, update_at, approve_found, approve_human_in_the_loop_task, list_recent_tasks,
}
use piso_chain.Orchestrator.Approval.{Step, Reach, IsGuarded, approval_enforced}

abbrev hexdigest : Text → Text
hexdigest t = codes "ab"

abbrev one : Orchestrator
one =
    (route_agent_task hexdigest 5 (codes "5.1") 0 (codes "TreasuryAgent") (codes "pay") false
      init_orchestrator).0

abbrev two : Orchestrator
two = (route_agent_task hexdigest 5 (codes "5.2") 0 (codes "GISAgent") (codes "map") false one).0

abbrev three : Orchestrator
three = (approve_human_in_the_loop_task (codes "sakura_task_5") (codes "sig") 9 two).0

abbrev statuses : Orchestrator → List ExecutionStatus
statuses o = map (λ task. task.status) o.execution_history

-- The second task takes the id of the first, which can no longer be approved.
same_millisecond :
    statuses three ≡ ExecutionStatus.pending_approval ∷ ExecutionStatus.approved_and_executed ∷ []
unfolding approve_human_in_the_loop_task approve_found approved update_at route_agent_task new_task
    is_high_risk init_orchestrator to_digits digit_char lookup insert text_eq
same_millisecond = refl

none_asked_for_all : length (list_recent_tasks (pos 0) three) ≡ 2
unfolding list_recent_tasks approve_human_in_the_loop_task approve_found update_at route_agent_task
    new_task init_orchestrator to_digits digit_char lookup insert text_eq
none_asked_for_all = refl

approval_enforced_example : All IsGuarded three.execution_history
approval_enforced_example = approval_enforced (
    Reach.next
      (Reach.next
        (Reach.next Reach.initial
          (Step.routed hexdigest 5 (codes "5.1") 0 (codes "TreasuryAgent") (codes "pay") false))
        (Step.routed hexdigest 5 (codes "5.2") 0 (codes "GISAgent") (codes "map") false))
      (Step.approval (codes "sakura_task_5") (codes "sig") 9))
