-- ===== src/Relayer/Once.antt =====
-- Every proposal is made once: over the daemon's restarts, and for deposits that share their hash.
use piso_chain.Base.{
  ℕ, ◌≡◌, refl, Bool, true, false, Bool-cases, inl, inr, List, [], ◌∷◌, ◌++◌, Text, text_eq_iff,
  All, arith,
}
use piso_chain.Multisig.{member}
use piso_chain.Multisig.Signers.{AllDistinct}
use piso_chain.Relayer.{
  Deposit, StateFile, Daemon, to_set, load_state, init_daemon, save_state, hash_of,
  process_deposit_event,
}
use piso_chain.Relayer.Ledger.{
  Action, deposit, restart, IsWritable, hashes, member-to_set, record_action, ledger, run_actions,
  run_actions-refines,
}

to_set-AllDistinct : (txs : List Text) → AllDistinct (to_set txs)
unfolding to_set
to_set-AllDistinct [] = tt
to_set-AllDistinct (x ∷ txs) = elim (Bool-cases (member x (to_set txs))) [
  | inl old ↦ rw old (to_set-AllDistinct txs)
  | inr new ↦ rw new (new, to_set-AllDistinct txs)
]

load_state-AllDistinct : (state_file : StateFile) → AllDistinct (load_state state_file [])
unfolding load_state
load_state-AllDistinct StateFile.missing = tt
load_state-AllDistinct StateFile.unreadable = tt
load_state-AllDistinct (StateFile.saved txs) = to_set-AllDistinct txs

module _ (keccak : Text → Text) where
  -- The hash of a deposit is among the given ones.
  abbrev pub IsRecorded : List Text → Action → Type 0
  IsRecorded seen (deposit writable event block_number) =
      member (hash_of keccak event block_number) seen ≡ true
  IsRecorded seen (restart dry_run) = Unit

  record_action-AllDistinct :
      (a : Action) (seen : List Text)
      → AllDistinct seen
      → AllDistinct (record_action keccak a seen).0
  record_action-AllDistinct (deposit writable event block_number) seen d =
      elim (Bool-cases (member (hash_of keccak event block_number) seen)) [
        | inl old ↦ rw old d
        | inr new ↦ rw new (new, d)
      ]
  record_action-AllDistinct (restart dry_run) seen d = d

  ledger-AllDistinct :
      (actions : List Action) (seen : List Text)
      → AllDistinct seen
      → AllDistinct (ledger keccak actions seen).0
  ledger-AllDistinct [] seen d = d
  ledger-AllDistinct (a ∷ actions) seen d =
      ledger-AllDistinct actions (record_action keccak a seen).0
        (record_action-AllDistinct a seen d)

  record_action-grows :
      (a : Action) (seen : List Text) (h : Text)
      → member h seen ≡ true
      → member h (record_action keccak a seen).0 ≡ true
  unfolding member
  record_action-grows (deposit writable event block_number) seen h m =
      elim (Bool-cases (member (hash_of keccak event block_number) seen)) [
        | inl old ↦ rw old m
        | inr new ↦ rw new (ground arith)
      ]
  record_action-grows (restart dry_run) seen h m = m

  ledger-grows :
      (actions : List Action) (seen : List Text) (h : Text)
      → member h seen ≡ true
      → member h (ledger keccak actions seen).0 ≡ true
  ledger-grows [] seen h m = m
  ledger-grows (a ∷ actions) seen h m =
      ledger-grows actions (record_action keccak a seen).0 h (record_action-grows a seen h m)

  record_action-IsRecorded :
      (writable : Bool) (event : Deposit) (block_number : ℕ) (seen : List Text)
      → member
          (hash_of keccak event block_number)
          (record_action keccak (deposit writable event block_number) seen).0
        ≡ true
  unfolding member
  record_action-IsRecorded writable event block_number seen =
      let tx_hash = hash_of keccak event block_number in
      elim (Bool-cases (member tx_hash seen)) [
        | inl old ↦ rw old old
        | inr new ↦ rw new (ground (arith, (text_eq_iff tx_hash tx_hash).1 refl))
      ]

  ledger-IsRecorded :
      (actions : List Action) (seen : List Text)
      → All (IsRecorded (ledger keccak actions seen).0) actions
  ledger-IsRecorded [] seen = tt
  ledger-IsRecorded (deposit writable event block_number ∷ actions) seen =
      let a = deposit writable event block_number in
      (
        ledger-grows actions (record_action keccak a seen).0 (hash_of keccak event block_number)
            (record_action-IsRecorded writable event block_number seen),
        ledger-IsRecorded actions (record_action keccak a seen).0,
      )
  ledger-IsRecorded (restart dry_run ∷ actions) seen = (tt, ledger-IsRecorded actions seen)

  -- From a start on any state file, over any deposits and restarts in which the file can be written: no
  -- proposal is made twice, none is made whose hash the file held at the start, and the hash of every
  -- deposit is proposed unless the file held it.
  pub proposed_once :
      (dry_run : Bool) (state_file : StateFile) (actions : List Action)
      → All IsWritable actions
      → let seen =
          hashes (run_actions keccak actions (init_daemon dry_run state_file [])).0
          ++ load_state state_file [] in
        AllDistinct seen × All (IsRecorded seen) actions
  proposed_once dry_run state_file actions w =
      let first = load_state state_file [] in
      let (answers, same) = run_actions-refines keccak dry_run state_file actions w in
      rw same (
        ledger-AllDistinct actions first (load_state-AllDistinct state_file),
        ledger-IsRecorded actions first,
      )

  -- Two deposits of one block with the same sender, recipient and amount, the first of them new: the
  -- second is not proposed, whatever its target chain, neither by the same daemon nor, where the first
  -- was saved, by a daemon that starts later, even if the first ran dry and the later one does not.
  pub same_hash-dropped :
      (daemon : Daemon) (event : Deposit) (target_chain_id block_number : ℕ)
      (writable dry_run : Bool)
      → member (hash_of keccak event block_number) daemon.processed_txs ≡ false
      → let other : Deposit = record event { target_chain_id = target_chain_id } in
        let after = (process_deposit_event keccak true event block_number daemon).0 in
        let later = init_daemon dry_run after.state_file after.proposals in
        (process_deposit_event keccak writable other block_number after ≡ (after, false))
        × (process_deposit_event keccak writable other block_number later ≡ (later, false))
  unfolding process_deposit_event save_state init_daemon load_state
  same_hash-dropped daemon event target_chain_id block_number writable dry_run new =
      let tx_hash = hash_of keccak event block_number in
      let held : member tx_hash (tx_hash ∷ daemon.processed_txs) ≡ true =
        (unfold member in ground (arith, (text_eq_iff tx_hash tx_hash).1 refl)) in
      rw new (rw held refl, rw (member-to_set tx_hash (tx_hash ∷ daemon.processed_txs), held) refl)
