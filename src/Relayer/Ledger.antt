-- ===== src/Relayer/Ledger.antt =====
-- The daemon over deposits and restarts, against a ledger that only records hashes.
use piso_chain.Base.{
  ℕ, ◌≡◌, refl, ap₂, ◌∙◌, Bool, true, false, List, [], ◌∷◌, ◌++◌, map, Text, text_eq_iff, All,
  arith, if◌then◌else◌,
}
use piso_chain.Multisig.{member}
use piso_chain.Relayer.{
  Deposit, StateFile, Proposal, Daemon, to_set, proposal, load_state, init_daemon, save_state,
  hash_of, propose, process_deposit_event,
}

-- A deposit comes in, while the state file opens for writing or not; or the daemon starts again.
pub data Action : Type 0 where
  deposit : (writable : Bool) (event : Deposit) (block_number : ℕ) → Action
  restart : (dry_run : Bool) → Action

abbrev pub hash_in : Proposal → Text
hash_in (Proposal.simulated tx_hash target_chain_id) = tx_hash
hash_in (Proposal.relaying tx_hash) = tx_hash

abbrev pub hashes : Daemon → List Text
hashes daemon = map hash_in daemon.proposals

-- The file opens whenever a deposit comes in.
abbrev pub IsWritable : Action → Type 0
IsWritable (deposit writable event block_number) = writable ≡ true
IsWritable (restart dry_run) = Unit

pub member-to_set : (h : Text) (txs : List Text) → member h (to_set txs) ≡ member h txs
unfolding to_set member
member-to_set h [] = refl
member-to_set h (x ∷ txs) =
    ground (arith, member-to_set h txs, member-to_set x txs, text_eq_iff h x)

abbrev answered : Daemon × Bool → Daemon × List Bool
answered r = (r.0, r.1 ∷ [])

module _ (keccak : Text → Text) where
  -- the daemon after an action, and its answer to a deposit
  abbrev pub act : Action → Daemon → Daemon × List Bool
  act (deposit writable event block_number) daemon =
      answered (process_deposit_event keccak writable event block_number daemon)
  act (restart dry_run) daemon = (init_daemon dry_run daemon.state_file daemon.proposals, [])

  abbrev pub run_actions : List Action → Daemon → Daemon × List Bool
  run_actions [] daemon = (daemon, [])
  run_actions (a ∷ actions) daemon =
      let r = act a daemon in let rest = run_actions actions r.0 in (rest.0, r.1 ++ rest.1)

  -- the hashes on record after an action, and the answer: is the hash new?
  abbrev pub record_action : Action → List Text → List Text × List Bool
  record_action (deposit writable event block_number) seen =
      let tx_hash = hash_of keccak event block_number in
      if member tx_hash seen then (seen, false ∷ []) else (tx_hash ∷ seen, true ∷ [])
  record_action (restart dry_run) seen = (seen, [])

  abbrev pub ledger : List Action → List Text → List Text × List Bool
  ledger [] seen = (seen, [])
  ledger (a ∷ actions) seen =
      let r = record_action a seen in let rest = ledger actions r.0 in (rest.0, r.1 ++ rest.1)

  module _ (first : List Text) where
    -- The daemon holds the record: in memory, in its file, and in its proposals after `first`.
    abbrev Holds : Daemon → List Text → Type 0
    Holds daemon seen =
        (hashes daemon ++ first ≡ seen)
        × ((h : Text) → member h daemon.processed_txs ≡ member h seen)
        × ((h : Text) → member h (load_state daemon.state_file []) ≡ member h seen)

    -- One action: the same answer, and the record is held again.
    abbrev Follows : Daemon × List Bool → List Text × List Bool → Type 0
    Follows (daemon, answers) (seen, expected) = Holds daemon seen × (answers ≡ expected)

    hash_in-proposal :
        (dry_run : Bool) (tx_hash : Text) (id : ℕ) → hash_in (proposal dry_run tx_hash id) ≡ tx_hash
    hash_in-proposal true tx_hash id = refl
    hash_in-proposal false tx_hash id = refl

    member_cons :
        (t h : Text) (txs seen : List Text)
        → member h txs ≡ member h seen
        → member h (t ∷ txs) ≡ member h (t ∷ seen)
    unfolding member
    member_cons t h txs seen e = ground arith

    propose-Holds :
        (daemon : Daemon) (seen : List Text) (tx_hash : Text) (id : ℕ)
        → Holds daemon seen
        → Holds (propose keccak true tx_hash id daemon) (tx_hash ∷ seen)
    unfolding save_state load_state
    propose-Holds daemon seen tx_hash id (log, memory, file) = (
      ap₂ (λ t ts. t ∷ ts) (hash_in-proposal daemon.dry_run tx_hash id) log,
      λ h. member_cons tx_hash h daemon.processed_txs seen (memory h),
      λ h.
          member-to_set h (tx_hash ∷ daemon.processed_txs)
          ∙ member_cons tx_hash h daemon.processed_txs seen (memory h),
    )

    -- One deposit, by whether its hash is on record.
    deposited :
        (daemon : Daemon) (seen : List Text) (tx_hash : Text) (id : ℕ) (old : Bool)
        → Holds daemon seen
        → Follows
            (answered
              (if old then (daemon, false) else (propose keccak true tx_hash id daemon, true)))
            (if old then (seen, false ∷ []) else (tx_hash ∷ seen, true ∷ []))
    deposited daemon seen tx_hash id true held = (held, refl)
    deposited daemon seen tx_hash id false held = (propose-Holds daemon seen tx_hash id held, refl)

    act-Follows :
        (a : Action) (daemon : Daemon) (seen : List Text)
        → IsWritable a
        → Holds daemon seen
        → Follows (act a daemon) (record_action a seen)
    act-Follows (deposit writable event block_number) daemon seen w held =
        let tx_hash = hash_of keccak event block_number in
        let same : member tx_hash daemon.processed_txs ≡ member tx_hash seen = held.1 tx_hash in
        unfold process_deposit_event in
        rw (w, same)
          (deposited daemon seen tx_hash event.target_chain_id (member tx_hash seen) held)
    act-Follows (restart dry_run) daemon seen w held =
        unfold init_daemon in ((held.0, held.2, held.2), refl)

    run-Follows :
        (actions : List Action) (daemon : Daemon) (seen : List Text)
        → All IsWritable actions
        → Holds daemon seen
        → Follows (run_actions actions daemon) (ledger actions seen)
    run-Follows [] daemon seen w held = (held, refl)
    run-Follows (a ∷ actions) daemon seen w held =
        let (next, answer) = act-Follows a daemon seen w.0 held in
        let (last, answers) =
          run-Follows actions (act a daemon).0 (record_action a seen).0 w.1 next in
        (last, ap₂ (λ xs ys. xs ++ ys) answer answers)

  -- Over any deposits and restarts in which each state file that is written opens, from a start on any
  -- state file: the daemon answers each deposit as the ledger does that starts with the hashes of the
  -- file, and at the end its proposals, before those hashes, are the ledger's record.
  pub run_actions-refines :
      (dry_run : Bool) (state_file : StateFile) (actions : List Action)
      → All IsWritable actions
      → let (daemon, answers) = run_actions actions (init_daemon dry_run state_file []) in
        let first = load_state state_file [] in
        let (seen, expected) = ledger actions first in
        (answers ≡ expected) × (hashes daemon ++ first ≡ seen)
  run_actions-refines dry_run state_file actions w =
      let (held, answers) =
        run-Follows (load_state state_file []) actions (init_daemon dry_run state_file [])
          (load_state state_file []) w (unfold init_daemon in (refl, (λ h. refl), (λ h. refl))) in
      (answers, held.0)
