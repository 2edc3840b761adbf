-- ===== src/Agents/Tests.antt =====
-- The registry of `__init__`, with a fixed digest and clock.
use piso_chain.Base.{◌≡◌, ◌≢◌, refl, All, Text, text_eq, text_key}
use piso_chain.Text.{codes}
use piso_chain.Dict.{insert}
use piso_chain.Outcome.{ok, err}
use piso_chain.Agents.{key_error, index_agents, init_agents, list_all_agents, execute_agent_task}
use piso_chain.Agents.Table.{sakura_agents}
use piso_chain.Agents.Execute.{answer, execute_agent_task_result}

abbrev hexdigest : Text → Text
hexdigest message = codes "ab"

all_agents_listed : list_all_agents init_agents ≡ sakura_agents
unfolding list_all_agents init_agents index_agents sakura_agents insert text_eq
all_agents_listed = refl

execute_agent_task_result_example :
    All
      (λ agent.
        execute_agent_task hexdigest (codes "1.5") 1 init_agents agent.id (codes "hi")
        ≡ ok (answer hexdigest (codes "1.5") 1 agent.id (codes "hi") agent))
      sakura_agents
    × ((agent_id : Text)
        → All (λ agent. agent.id ≢ agent_id) sakura_agents
        → execute_agent_task hexdigest (codes "1.5") 1 init_agents agent_id (codes "hi")
          ≡ err (key_error (codes "category")))
execute_agent_task_result_example = execute_agent_task_result hexdigest (codes "1.5") 1 (codes "hi")
