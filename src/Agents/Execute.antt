-- ===== src/Agents/Execute.antt =====
-- `execute_agent_task` on the registry of `__init__`: which ids it answers.
use piso_chain.Base.{
  ℕ, ◌≡◌, ◌≢◌, refl, none, some, List, [], ◌∷◌, ◌++◌, Text, text_eq, text_key, text_eq_iff, All,
  All-map, arith,
}
use piso_chain.Text.{codes}
use piso_chain.Dict.{Dict, lookup, insert}
use piso_chain.Dict.Laws.{lookup-insert}
use piso_chain.Outcome.{ok, err}
use piso_chain.Agents.{
  TaskResult, key_error, info_of, get_agent_info, index_agents, init_agents, listed, output_of,
  execute_agent_task,
}
use piso_chain.Agents.Table.{Agent, sakura_agents}

abbrev task_hash_of : (Text → Text) → Text → Text → Text → Text
task_hash_of hexdigest clock agent_id prompt =
    codes "0x" ++ hexdigest (agent_id ++ b':' ∷ (prompt ++ b':' ∷ clock))

-- what a call answers about a listed agent
abbrev pub answer : (Text → Text) → Text → ℕ → Text → Text → Agent → TaskResult
answer hexdigest clock now agent_id prompt agent =
    let task_hash = task_hash_of hexdigest clock agent_id prompt in
    let output = output_of agent_id prompt task_hash (listed agent) in
    record {
      status = codes "SUCCESS";
      agent_id = agent_id;
      agent_name = agent.name;
      category = agent.category;
      prompt = prompt;
      response = output.response_text;
      findings = output.findings;
      task_hash = task_hash;
      timestamp = now;
    }

found :
    (hexdigest : Text → Text) (clock : Text) (now : ℕ) (agents : Dict Text Agent)
    (agent_id prompt : Text) (agent : Agent)
    → lookup agent_id agents ≡ some agent
    → execute_agent_task hexdigest clock now agents agent_id prompt
      ≡ ok (answer hexdigest clock now agent_id prompt agent)
unfolding execute_agent_task get_agent_info info_of
found hexdigest clock now agents agent_id prompt agent e = rw e refl

missing :
    (hexdigest : Text → Text) (clock : Text) (now : ℕ) (agents : Dict Text Agent)
    (agent_id prompt : Text)
    → lookup agent_id agents ≡ none
    → execute_agent_task hexdigest clock now agents agent_id prompt
      ≡ err (key_error (codes "category"))
unfolding execute_agent_task get_agent_info info_of
missing hexdigest clock now agents agent_id prompt e = rw e refl

lookup-index_agents :
    (agent_id : Text) (rows : List Agent) (agents : Dict Text Agent)
    → All (λ agent. agent.id ≢ agent_id) rows
    → lookup agent_id agents ≡ none
    → lookup agent_id (index_agents rows agents) ≡ none
unfolding index_agents
lookup-index_agents agent_id [] agents others e = e
lookup-index_agents agent_id (agent ∷ rows) agents others e =
    lookup-index_agents agent_id rows (insert agent.id agent agents) others.1 (
      ground (
        arith,
        lookup-insert agent.id agent_id agent agents,
        text_eq_iff agent.id agent_id,
        others.0,
        e,
      ))

-- Each row is found under its id.
rows_found : All (λ agent. lookup agent.id init_agents ≡ some agent) sakura_agents
unfolding init_agents index_agents sakura_agents insert lookup text_eq
rows_found = (
  refl,
  (
    refl,
    (
      refl,
      (
        refl,
        (
          refl,
          (
            refl,
            (
              refl,
              (
                refl,
                (
                  refl,
                  (
                    refl,
                    (
                      refl,
                      (refl, (refl, (refl, (refl, (refl, (refl, (refl, (refl, (refl, tt))))))))),
                    ),
                  ),
                ),
              ),
            ),
          ),
        ),
      ),
    ),
  ),
)

-- On the registry of `__init__`, for every prompt: a call on the id of each of the twenty agents
-- succeeds, with that agent's name, category and findings; a call on any other id raises the KeyError
-- of "category", although `get_agent_info` answers such an id with a custom agent.
pub execute_agent_task_result :
    (hexdigest : Text → Text) (clock : Text) (now : ℕ) (prompt : Text)
    → All
        (λ agent.
          execute_agent_task hexdigest clock now init_agents agent.id prompt
          ≡ ok (answer hexdigest clock now agent.id prompt agent))
        sakura_agents
      × ((agent_id : Text)
          → All (λ agent. agent.id ≢ agent_id) sakura_agents
          → execute_agent_task hexdigest clock now init_agents agent_id prompt
            ≡ err (key_error (codes "category")))
execute_agent_task_result hexdigest clock now prompt = (
  All-map (λ agent. lookup agent.id init_agents ≡ some agent)
      (λ agent.
        execute_agent_task hexdigest clock now init_agents agent.id prompt
        ≡ ok (answer hexdigest clock now agent.id prompt agent))
      sakura_agents (λ agent e. found hexdigest clock now init_agents agent.id prompt agent e)
      rows_found,
  λ agent_id others. missing hexdigest clock now init_agents agent_id prompt (
      unfold init_agents in
      lookup-index_agents agent_id sakura_agents [] others (unfold lookup in refl)),
)
