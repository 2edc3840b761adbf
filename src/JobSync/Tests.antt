-- ===== src/JobSync/Tests.antt =====
-- Two tasks, of which one is run.
use piso_chain.Base.{ℕ, ◌+◌, ◌≡◌, ◌≢◌, refl, none, [], ◌∷◌, ◌++◌, Text, text_eq, text_key}
use piso_chain.Int.{pos}
use piso_chain.Text.{codes}
use piso_chain.Dict.{lookup, insert}
use piso_chain.Dict.Values.{AllValues}
use piso_chain.JobSync.{
  Tasks, init_task, node_for, schedule_job, finished, run_found, run_task, count_status,
  get_queue_stats,
}
use piso_chain.JobSync.Queue.{Step, Reach, queue_balanced}

-- an id that tells the number of tasks
abbrev make_id : Text → ℕ → ℕ → Text
make_id name now count = codes "JOB-" ++ count ∷ []

abbrev one : Tasks
one = (schedule_job make_id [] 5 (codes "scan") (codes "audit") (pos 2)).0

abbrev two : Tasks
two = (schedule_job make_id one 6 (codes "trace") (codes "osint") (pos 1)).0

abbrev done : Tasks
done = (run_task two (codes "JOB-" ++ 1 ∷ []) 8 9).0

stats_of_done : get_queue_stats done ≡ record {
  total_tasks = 2;
  pending_tasks = 1;
  running_tasks = 0;
  completed_tasks = 1;
  active_worker_nodes = 3;
}
unfolding get_queue_stats count_status run_task run_found finished schedule_job init_task node_for
    insert lookup text_eq
stats_of_done = refl

unknown_task : (run_task one (codes "JOB-x") 8 9).1 ≡ none
unfolding run_task run_found schedule_job init_task node_for insert lookup text_eq
unknown_task = refl

queue_balanced_example :
    ((get_queue_stats done).pending_tasks + (get_queue_stats done).completed_tasks
      ≡ (get_queue_stats done).total_tasks)
    × ((get_queue_stats done).running_tasks ≡ 0)
    × AllValues (λ task. task.assigned_node ≢ none) done
queue_balanced_example = queue_balanced (
    Reach.next
      (Reach.next
        (Reach.next Reach.empty (Step.scheduled make_id 5 (codes "scan") (codes "audit") (pos 2)))
        (Step.scheduled make_id 6 (codes "trace") (codes "osint") (pos 1)))
      (Step.ran (codes "JOB-" ++ 1 ∷ []) 8 9))
