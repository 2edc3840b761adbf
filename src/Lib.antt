-- ===== src/Lib.antt =====
-- PISO Chain: the treasury's mining engine, proof of work, the job scheduler, the registry of agents,
-- referrals, the bridges, the indexer and the JSON-RPC server, and the wallet's mnemonics, secret
-- sharing, derivation paths, HD keys, accounts, keystores and threshold multisig, in the Python of the repository.
--
-- The parts and where they are:
-- * Treasury (core/treasury_mining.py): `PISOTreasuryMiningEngine` as a record `Engine` that each method
--   takes and returns. `finalize_block_reward` and `rollback_block_reorg` are the two changes of state,
--   `Treasury.Consistent.Reach` their sequences. The clock is an argument; amounts stay in wei, where the
--   code divides by 10 ** 18 for its reports.
-- * Slip39 (wallet/slip39/shamir.py): the tables of `GF256`, filled by running `_init_tables`, its
--   operations, `ShamirSecretSharing.split` and `combine`, and the texts of a `Share`. `os.urandom` is a
--   function from the number of the call to a byte. `Slip39.ShareText` has the recovery from share texts
--   of wallet/recovery/recovery.py. Indices, thresholds and counts are naturals.
-- * Derivation (wallet/derivation/path.py): `DerivationPath.parse` and `BIP44Derivation.build_path`.
-- * HdWallet (wallet/hdwallet/hdwallet.py): `HDNode.derive_child`, `HDWallet.from_seed`, and
--   `DerivationPath.derive_path`, which goes through Derivation. HMAC, the hashes and the public keys of
--   eth_keys are the parameter `Crypto`; `HdWallet.Nodes.Works` says what the theorems ask of it.
-- * Mnemonic (wallet/mnemonic/bip39.py, wallet/mnemonic/wordlists.py): `BIP39Mnemonic` over the word list,
--   which is copied word by word. A string of binary digits is a list of Booleans (Bits). SHA-256,
--   PBKDF2 and `os.urandom` are parameters.
-- * Multisig (wallet/multisig/multisig.py): `MultisigWallet` and `MultisigTransaction`. Signature
--   recovery, `to_checksum_address` and SHA-256 are the parameter `Keys`.
-- * Pow (core/pow.py): targets, the hash's input, `PoWEngine.verify_proof` and `mine`. Keccak and the
--   address check of web3 and SHA-256 are the parameter `Hashing`. `max_iterations` bounds the loop, so
--   the rounds left are its structural argument. Times, rates and `benchmark` are left out.
-- * JobSync (core/jobsync_engine.py): the tasks of `JobSyncEngine` as a dict, with `schedule_job` and
--   `run_task` as the two changes of state and `JobSync.Queue.Reach` their sequences. The digest of an
--   id and the clock are arguments; payloads, durations and `get_all_jobs` are left out.
-- * Agents (core/sakura_agents/agent_registry.py): the table of agents and `SakuraAgentRegistry`. The
--   digest of SHA-256 and the clock are arguments.
-- * Orchestrator (core/sakura_framework/agent_orchestrator.py): the tasks of `SakuraOrchestrator`. A task
--   that the history and the ids share is a place in the history; `Orchestrator.Approval.Reach` has the
--   sequences of tasks and approvals.
-- * Relayer (bridge/relayer.py): `BridgeRelayerDaemon` with its state file as a record `Daemon`;
--   `Relayer.Ledger` has the sequences of deposits and restarts, and the ledger that they are compared
--   with. Keccak and the node are arguments. The endless loop counts the sleeps that end before an
--   interrupt.
-- * Freqtrade (bridge/freqtrade_bridge.py): `FreqtradeBridge` and its two clients. What freqtrade answers
--   to a poll is a `Feed`, the chain a function in `Client`, and floating-point ratios, dates and SHA-256
--   are the parameter `Library`; `run_loop` goes over a list of feeds.
-- * Indexer (indexer/indexer.py): the tables of `IndexerDB` as lists of rows, and the last id of
--   AUTOINCREMENT, with `insert_event` and `update_last_block` as the two changes of state, `scan_cycle` and the routes of `do_GET`.
-- * JsonRpc (rpc/jsonrpc_server.py): `JSONRPCHandler` and the reply of `do_POST` to a body that parses to a
--   JSON value (Json) or does not parse.
-- * Keystore (wallet/encryption/keystore.py): `KeystoreManager`. PBKDF2, SHA-256 and AES are the parameter
--   `Cipher`; `Keystore.RoundTrip.Works` says what the theorems ask of it.
-- * Accounts (wallet/account/account.py): `Account`; `Accounts.Signer` (wallet/crypto/signer.py) has the two
--   signers and `Accounts.ValidatorKey` (wallet/validator/validator_key.py) the keys of roles, which go
--   through Keystore to be exported. eth_keys and hashlib are the parameter `EthKeys`; ed25519 raises where
--   the code calls `hashlib.ripemd160`, which hashlib lacks.
-- * Recovery (wallet/recovery/recovery.py): `WalletRecovery.recover_from_mnemonic`, which goes through
--   Mnemonic, HdWallet, Derivation and Accounts, and `recover_from_keystore`, through Keystore.
-- * Referral (core/refref_referral_engine.py): `RefRefReferralEngine`, with `create_campaign`,
--   `generate_referral_code` and `track_conversion` as the changes of state and `Referral.Credit.Reach`
--   their sequences. Floating-point amounts are the parameter `Amounts`; the digest and the clock are
--   arguments.
-- Base has the shared names, lists and equality tests, Dict Python's dictionaries in insertion order,
-- Int its integers, Text its ASCII strings with `int`, `format`, `hex` and `fromhex`, Bytes the big-endian
-- conversions, and Xor the laws of `^`. Exceptions are values of a result type, of Outcome or of the
-- part.
--
-- Loops are structural: over lists, or over the rounds of a `range`. Fuel is used where a number is
-- written in digits, in `Text.Numbers.to_digits` and `Bits.binary`: one round more than the number
-- counts, which the theorems on both show to be enough.
--
-- Not modelled: the registry of SLIP-44, the frames of the hardware wallet, the post-quantum signer, the
-- rest of the agent framework, the engines of security and analysis, the bundler, the REST server, the
-- trading agent, the SDK, the command line and the scripts; and the contracts and pages of the
-- repository, which are not Python.
pub mod Base
pub mod Outcome
pub mod Json
pub mod Bytes
pub mod Bits
pub mod Dict
pub mod Int
pub mod Text
pub mod Treasury
pub mod Xor
pub mod Slip39
pub mod Derivation
pub mod HdWallet
pub mod Pow
pub mod JobSync
pub mod Mnemonic
pub mod Multisig
pub mod Agents
pub mod Orchestrator
pub mod Relayer
pub mod JsonRpc
pub mod Indexer
pub mod Freqtrade
pub mod Keystore
pub mod Accounts
pub mod Recovery
pub mod Referral
