-- ===== src/Agents.antt =====
-- core/sakura_agents/agent_registry.py. A value of a findings entry that is a number is its text; the
-- clock's readings and the digest of SHA-256 are arguments.
pub mod Table
pub mod Execute
mod Tests
use piso_chain.Base.{
  ℕ, Bool, Option, none, some, List, [], ◌∷◌, ◌++◌, map, Text, text_eq, text_key, if◌then◌else◌,
}
use piso_chain.Text.{codes}
use piso_chain.Outcome.{Result, ok, err, ◌>>=◌}
use piso_chain.Dict.{Dict, lookup, insert, values}
use piso_chain.Agents.Table.{Agent, sakura_agents}

-- an answer of `get_agent_info`: a dict that may lack the keys "category" and "icon"
pub record Info : Type 0 where
  pub id : Text
  pub name : Text
  pub category : Option Text
  pub icon : Option Text
  pub description : Text

-- `{agent["id"]: agent for agent in agents}`, into `d`
unfoldable pub index_agents : List Agent → Dict Text Agent → Dict Text Agent
index_agents [] d = d
index_agents (agent ∷ agents) d = index_agents agents (insert agent.id agent d)

unfoldable pub init_agents : Dict Text Agent
init_agents = index_agents sakura_agents []

abbrev pub listed : Agent → Info
listed agent = record {
  id = agent.id;
  name = agent.name;
  category = some agent.category;
  icon = some agent.icon;
  description = agent.description;
}

unfoldable pub info_of : Text → Option Agent → Info
info_of agent_id none = record {
  id = agent_id;
  name = codes "Custom Agent";
  category = none;
  icon = none;
  description = codes "Generic Sakura Agent";
}
info_of agent_id (some agent) = listed agent

unfoldable pub get_agent_info : Dict Text Agent → Text → Info
get_agent_info agents agent_id = info_of agent_id (lookup agent_id agents)

unfoldable pub list_all_agents : Dict Text Agent → List Agent
list_all_agents agents = values agents

-- the KeyError of a missing key
pub data Error : Type 0 where
  key_error : Text → Error

abbrev pub Finding : Type 0
Finding = Dict Text Text

abbrev entry : Text → Text → Finding → Finding
entry key value rest = (key, value) ∷ rest

abbrev auditor_findings : List Finding
auditor_findings =
    entry (codes "severity") (codes "INFO")
      (entry (codes "issue") (codes "Contract adheres to Solidity 0.8.20 best practices.") [])
    ∷ entry (codes "severity") (codes "PASSED")
        (entry (codes "issue") (codes "ReentrancyGuard applied to all value-transfer methods.") [])
    ∷ entry (codes "severity") (codes "OPTIMIZATION") (
        entry (codes "issue") (codes "Use uint256 instead of uint8 for loop counters to save gas.")
          [])
    ∷ []

abbrev compliance_findings : List Finding
compliance_findings =
    entry (codes "check") (codes "AML Blacklist Check") (entry (codes "result") (codes "CLEAN") [])
    ∷ entry (codes "check") (codes "Tornado Cash Mixer Interaction")
        (entry (codes "result") (codes "NONE") [])
    ∷ entry (codes "check") (codes "Wallet Risk Score")
        (entry (codes "score") (codes "0.02 / 1.0 (Low Risk)") [])
    ∷ []

abbrev trading_findings : Text → List Finding
trading_findings task_hash =
    entry (codes "strategy") (codes "PISOStrategy EMA Crossover")
      (entry (codes "signal") (codes "BULLISH") [])
    ∷ entry (codes "rsi_14") (codes "58.4") (entry (codes "profit_target") (codes "+1.45%") [])
    ∷ entry (codes "sha256_proof") task_hash []
    ∷ []

-- `findings` and `response_text`
pub record Output : Type 0 where
  pub findings : List Finding
  pub response_text : Text

unfoldable pub output_of : Text → Text → Text → Info → Output
output_of agent_id prompt task_hash agent =
    if text_eq agent_id (codes "SmartContractAuditor")
    then record {
      findings = auditor_findings;
      response_text =
          codes
            "Audit complete for code snippet. 0 critical vulnerabilities found. 1 gas optimization suggested.";
    }
    else if text_eq agent_id (codes "ComplianceAgent")
    then record {
      findings = compliance_findings;
      response_text =
          codes "Compliance check complete. Target address verified clean with low risk score.";
    }
    else if text_eq agent_id (codes "TradingAgent")
    then record {
      findings = trading_findings task_hash;
      response_text =
          codes "Freqtrade market analysis evaluated. Signal is BULLISH with high confidence.";
    }
    else record {
      findings =
          entry (codes "status") (codes "COMPLETED") (
            entry (codes "details") (agent.name ++ codes " processed query with 98.5% confidence.")
              [])
          ∷ [];
      response_text =
          codes "Agent ["
          ++ (agent.name ++ (codes "] finished execution: '" ++ (prompt ++ codes "'")));
    }

pub record TaskResult : Type 0 where
  pub status : Text
  pub agent_id : Text
  pub agent_name : Text
  pub category : Text
  pub prompt : Text
  pub response : Text
  pub findings : List Finding
  pub task_hash : Text
  pub timestamp : ℕ

abbrev required : Text → Option Text → Result Error Text
required key none = err (key_error key)
required key (some value) = ok value

-- `hexdigest data` is the digest in hexadecimal, `clock` the text of `time.time()`, and `now` the whole
-- seconds at the end; the duration is left out.
unfoldable pub execute_agent_task :
    (Text → Text) → Text → ℕ → Dict Text Agent → Text → Text → Result Error TaskResult
execute_agent_task hexdigest clock now agents agent_id prompt = do
  let agent = get_agent_info agents agent_id
  let task_hash = codes "0x" ++ hexdigest (agent_id ++ b':' ∷ (prompt ++ b':' ∷ clock))
  let output = output_of agent_id prompt task_hash agent
  category ← required (codes "category") agent.category
  ok (record {
    status = codes "SUCCESS";
    agent_id = agent_id;
    agent_name = agent.name;
    category = category;
    prompt = prompt;
    response = output.response_text;
    findings = output.findings;
    task_hash = task_hash;
    timestamp = now;
  })
