-- ===== src/Agents/Table.antt =====
-- `SAKURA_20_AGENTS` of core/sakura_agents/agent_registry.py, row by row; 0xFE0F is the variation selector of an emoji.
use piso_chain.Base.{List, [], ◌∷◌, ◌++◌, Text}
use piso_chain.Text.{codes}

pub record Agent : Type 0 where
  pub id : Text
  pub name : Text
  pub category : Text
  pub icon : Text
  pub description : Text

unfoldable pub sakura_agents : List Agent
sakura_agents =
    record {
      id = codes "GovernanceAgent";
      name = codes "Governance & DAO Agent";
      category = codes "Governance";
      icon = codes "🏛" ++ 0xFE0F ∷ [];
      description =
          codes
            "Analyzes proposals, checks duplicates, estimates budget impact, and generates voting recommendations.";
    }
    ∷ record {
      id = codes "TreasuryAgent";
      name = codes "Treasury & Reserve Agent";
      category = codes "Economics";
      icon = codes "💰";
      description =
          codes
            "Monitors protocol treasury reserves, token burn rates, genesis supply allocations, and 10-year emissions.";
    }
    ∷ record {
      id = codes "ValidatorAgent";
      name = codes "Validator Health Agent";
      category = codes "Consensus";
      icon = codes "🛡" ++ 0xFE0F ∷ [];
      description =
          codes
            "Tracks PoSA 3.0s block proposals, missing proposal slots, misdemeanor jailing alerts, and slashing risks.";
    }
    ∷ record {
      id = codes "TradingAgent";
      name = codes "Freqtrade AI Trading Agent";
      category = codes "DeFi & Algorithmic";
      icon = codes "📈";
      description =
          codes
            "Evaluates EMA/RSI momentum strategies, generates SHA-256 trade proofs, and calculates risk scores.";
    }
    ∷ record {
      id = codes "ComplianceAgent";
      name = codes "AML & Compliance Monitoring Agent";
      category = codes "Compliance";
      icon = codes "⚖" ++ 0xFE0F ∷ [];
      description =
          codes
            "Performs wallet risk scoring, suspicious transaction detection, and automated audit trail logging.";
    }
    ∷ record {
      id = codes "SmartContractAuditor";
      name = codes "Solidity Smart Contract Auditor";
      category = codes "Security";
      icon = codes "🔍";
      description =
          codes
            "Scans Solidity code for reentrancy, overflow, gas optimizations, and generates automated unit test suites.";
    }
    ∷ record {
      id = codes "BlockchainAnalyticsAgent";
      name = codes "Blockchain Analytics Agent";
      category = codes "Telemetry";
      icon = codes "📊";
      description =
          codes
            "Real-time TPS calculation, gas price tracking, TVL monitoring, and RPC node latency analysis.";
    }
    ∷ record {
      id = codes "ExplorerAssistant";
      name = codes "Blockscout Explorer Assistant";
      category = codes "Discovery";
      icon = codes "🌐";
      description =
          codes
            "Natural language transaction decoding, contract address explanations, and block summary explanations.";
    }
    ∷ record {
      id = codes "WalletAssistant";
      name = codes "EIP-4337 Wallet AI Assistant";
      category = codes "User Experience";
      icon = codes "💼";
      description =
          codes
            "Portfolio balance breakdown, transaction risk warnings, gasless paymaster explanations, and recovery guidance.";
    }
    ∷ record {
      id = codes "IdentityAgent";
      name = codes "Identity & ZK Recovery Agent";
      category = codes "Identity";
      icon = codes "🔐";
      description =
          codes
            "Manages passkeys, SLIP-0044 coin types, and Zero-Knowledge guardian social recovery proofs.";
    }
    ∷ record {
      id = codes "SupplyChainAgent";
      name = codes "DePIN Supply Chain Logistics Agent";
      category = codes "DePIN";
      icon = codes "📦";
      description =
          codes
            "Verifies physical shipment serial hashes, RFID telemetry proofs, and automated invoice dispatch.";
    }
    ∷ record {
      id = codes "DePINAgent";
      name = codes "DePIN Infrastructure Node Agent";
      category = codes "DePIN";
      icon = codes "📡";
      description =
          codes
            "Monitors physical hardware bandwidth, GPU/storage node uptime, and rewards distribution.";
    }
    ∷ record {
      id = codes "GISAgent";
      name = codes "GeoLibre GIS Spatial Mapping Agent";
      category = codes "Spatial";
      icon = codes "🗺" ++ 0xFE0F ∷ [];
      description =
          codes
            "Processes validator geographic coordinates, MapLibre GL JS vector layers, and spatial node proximity.";
    }
    ∷ record {
      id = codes "CustomerSupportAgent";
      name = codes "Web3 24/7 Support Agent";
      category = codes "Support";
      icon = codes "💬";
      description =
          codes
            "Provides instant documentation Q&A, RPC setup troubleshooting, and faucet claim assistance.";
    }
    ∷ record {
      id = codes "BusinessAutomationAgent";
      name = codes "Enterprise ERP & CRM Agent";
      category = codes "Business";
      icon = codes "🏢";
      description =
          codes
            "Automates payroll disbursements, recurring invoicing, accounting ledgers, and vendor procurement workflows.";
    }
    ∷ record {
      id = codes "DocumentationAssistant";
      name = codes "Technical Documentation Assistant";
      category = codes "Docs";
      icon = codes "📖";
      description =
          codes
            "Indexes PISO Chain whitepaper, SDK references, REST API schemas, and generates code snippets.";
    }
    ∷ record {
      id = codes "DeveloperCopilot";
      name = codes "Web3 Developer Copilot";
      category = codes "Development";
      icon = codes "💻";
      description =
          codes
            "Generates Viem TypeScript code, Hardhat deployment scripts, and Web3.py backend integration snippets.";
    }
    ∷ record {
      id = codes "SecurityMonitoringAgent";
      name = codes "Mempool & Security Threat Agent";
      category = codes "Security";
      icon = codes "🚨";
      description =
          codes
            "Real-time mempool scanning for front-running, sandwich attacks, and abnormal contract calls.";
    }
    ∷ record {
      id = codes "ProposalReviewAgent";
      name = codes "DAO Proposal Budget Review Agent";
      category = codes "Governance";
      icon = codes "📜";
      description =
          codes
            "Evaluates milestone grant requests, budget line items, and past team delivery history.";
    }
    ∷ record {
      id = codes "RiskAssessmentAgent";
      name = codes "Macro Risk & Liquidity Agent";
      category = codes "Economics";
      icon = codes "🛡" ++ 0xFE0F ∷ [];
      description =
          codes
            "Calculates overall protocol systemic risk scores, DEX pool slippage, and bridge liquidity health.";
    }
    ∷ []
