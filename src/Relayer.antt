-- ===== src/Relayer.antt =====
-- bridge/relayer.py, the deposits that the daemon relays. Keccak-256 in hexadecimal is an argument; the
-- configuration and what is printed besides the proposal are left out.
pub mod Ledger
pub mod Once
pub mod Preimage
pub mod Cycles
mod Tests
use piso_chain.Base.{
  ℕ, not, ◌&&◌, ◌==◌, zero, suc, ◌+◌, ◌-◌, Bool, true, false, List, [], ◌∷◌, ◌++◌, Text, ltb,
  if◌then◌else◌,
}
use piso_chain.Text.{codes}
use piso_chain.Text.Numbers.{to_digits}
use piso_chain.Multisig.{member}

-- `event_data`
pub record Deposit : Type 0 where
  pub sender : Text
  pub target_address : Text
  pub amount : ℕ
  pub target_chain_id : ℕ

-- The file at `state_path`: absent, without a readable list, or with one.
pub data StateFile : Type 0 where
  missing unreadable : StateFile
  saved : List Text → StateFile

-- What is done with a proposal: the line that is printed.
pub data Proposal : Type 0 where
  simulated : Text → ℕ → Proposal
  relaying : Text → Proposal

-- The daemon, its state file, and the proposals so far, the last one first.
pub record Daemon : Type 0 where
  pub dry_run : Bool
  pub processed_txs : List Text
  pub state_file : StateFile
  pub proposals : List Proposal

-- `set(items)`
unfoldable pub to_set : List Text → List Text
to_set [] = []
to_set (x ∷ items) = let rest = to_set items in if member x rest then rest else x ∷ rest

-- the transactions after `load_state`, from those before
unfoldable pub load_state : StateFile → List Text → List Text
load_state StateFile.missing processed_txs = processed_txs
load_state StateFile.unreadable processed_txs = processed_txs
load_state (StateFile.saved txs) processed_txs = to_set txs

-- `__init__`
unfoldable pub init_daemon : Bool → StateFile → List Proposal → Daemon
init_daemon dry_run state_file proposals = record {
  dry_run = dry_run;
  processed_txs = load_state state_file [];
  state_file = state_file;
  proposals = proposals;
}

-- `writable` says whether the file opens for writing.
unfoldable pub save_state : Bool → Daemon → Daemon
save_state writable daemon =
    if writable then record daemon { state_file = StateFile.saved daemon.processed_txs } else daemon

-- `raw_bytes`
unfoldable pub raw_text : Text → Text → ℕ → ℕ → Text
raw_text sender target_address amount block_number =
    sender
    ++ b':' ∷ (target_address ++ b':' ∷ (to_digits 10 amount ++ b':' ∷ to_digits 10 block_number))

abbrev pub proposal : Bool → Text → ℕ → Proposal
proposal dry_run tx_hash target_chain_id =
    if dry_run then Proposal.simulated tx_hash target_chain_id else Proposal.relaying tx_hash

-- the node that the daemon reaches, or none
pub data Node : Type 0 where
  offline : Node
  connected : (latest_block : ℕ) (block_number : ℕ → ℕ) → Node

-- `last_scanned_block`, before the loop
abbrev pub first_block : ℕ → ℕ
first_block latest_block = if ltb 10 latest_block then latest_block - 10 else 1

abbrev pub simulated_event : Deposit
simulated_event = record {
  sender = codes "0x1821F246a27287a2187E1D634B8883030fA14731";
  target_address = codes "0x70997970C51812dc3A010C7d01b50e0d17dc79C8";
  amount = 5000000000000000000;
  target_chain_id = 1;
}

module _ (keccak : Text → Text) where
  unfoldable pub compute_tx_hash : Text → Text → ℕ → ℕ → Text
  compute_tx_hash sender target_address amount block_number =
      codes "0x" ++ keccak (raw_text sender target_address amount block_number)

  abbrev pub hash_of : Deposit → ℕ → Text
  hash_of event block_number =
      compute_tx_hash event.sender event.target_address event.amount block_number

  -- what `process_deposit_event` does to a proposal that is not yet processed
  abbrev pub propose : Bool → Text → ℕ → Daemon → Daemon
  propose writable tx_hash target_chain_id daemon = save_state writable (record daemon {
    processed_txs = tx_hash ∷ daemon.processed_txs;
    proposals = proposal daemon.dry_run tx_hash target_chain_id ∷ daemon.proposals;
  })

  unfoldable pub process_deposit_event : Bool → Deposit → ℕ → Daemon → Daemon × Bool
  process_deposit_event writable event block_number daemon =
      let tx_hash = hash_of event block_number in
      if member tx_hash daemon.processed_txs
      then (daemon, false)
      else (propose writable tx_hash event.target_chain_id daemon, true)

  -- `current_block`, in a cycle
  abbrev pub current_block : Bool → (ℕ → ℕ) → ℕ → ℕ → ℕ
  current_block is_connected block_number cycle last_scanned_block =
      if is_connected then block_number cycle else last_scanned_block + 1

  -- the deposit of the simulation, in a cycle
  unfoldable pub inject : Bool → Bool → ℕ → ℕ → Daemon → Daemon
  inject writable is_connected cycle block_number daemon =
      if not is_connected && cycle == 1
      then (process_deposit_event writable simulated_event block_number daemon).0
      else daemon

  -- The loop of `run`, with `cycle` of its cycles done: is there a node, which answers the block of each
  -- cycle, does it run once, and how many more of its sleeps end before one is interrupted?
  unfoldable pub run_cycles : Bool → Bool → (ℕ → ℕ) → Bool → ℕ → ℕ → ℕ → Daemon → Daemon × ℕ
  run_cycles writable is_connected block_number once zero cycle last_scanned_block daemon =
      let current = current_block is_connected block_number (cycle + 1) last_scanned_block in
      (inject writable is_connected (cycle + 1) current daemon, last_scanned_block)
  run_cycles writable is_connected block_number once (suc sleeps) cycle last_scanned_block daemon =
      let current = current_block is_connected block_number (cycle + 1) last_scanned_block in
      let after = inject writable is_connected (cycle + 1) current daemon in
      let rest =
        run_cycles writable is_connected block_number once sleeps (cycle + 1) current after in
      if once then (after, last_scanned_block) else rest

  unfoldable pub run : Node → Bool → Bool → ℕ → Daemon → Daemon × ℕ
  run Node.offline writable once sleeps daemon =
      run_cycles writable false (λ cycle. 0) once sleeps 0 (first_block 124800) daemon
  run (Node.connected latest_block block_number) writable once sleeps daemon =
      run_cycles writable true block_number once sleeps 0 (first_block latest_block) daemon
