-- ===== src/Relayer/Tests.antt =====
-- Deposits in a file that opens, with the identity for the digest.
use piso_chain.Base.{
  ℕ, ◌+◌, ◌≡◌, ◌≢◌, ◌⊎◌, refl, true, false, List, [], ◌∷◌, ◌++◌, All, Text, text_eq,
}
use piso_chain.Text.{codes}
use piso_chain.Text.Numbers.{to_digits, digit_char}
use piso_chain.Multisig.{member}
use piso_chain.Multisig.Signers.{AllDistinct}
use piso_chain.Relayer.{
  Deposit, Daemon, Node, StateFile, to_set, load_state, init_daemon, save_state, raw_text,
  compute_tx_hash, process_deposit_event, run, simulated_event,
}
use piso_chain.Relayer.Ledger.{Action, hashes, ledger, run_actions, run_actions-refines}
use piso_chain.Relayer.Once.{IsRecorded, proposed_once, same_hash-dropped}
use piso_chain.Relayer.Preimage.{compute_tx_hash_collision}
use piso_chain.Relayer.Cycles.{run_result}

abbrev keccak : Text → Text
keccak t = t

abbrev event : Deposit
event = record {
  sender = codes "0xa";
  target_address = codes "0xb";
  amount = 5;
  target_chain_id = 1;
}

abbrev other_chain : Deposit
other_chain = record event { target_chain_id = 56 }

abbrev actions : List Action
actions =
    Action.deposit true event 7
    ∷ Action.restart false
    ∷ Action.deposit true event 7
    ∷ Action.deposit true other_chain 7
    ∷ Action.deposit true event 8
    ∷ []

abbrev fresh : Daemon
fresh = init_daemon false StateFile.missing []

hash_text : compute_tx_hash keccak (codes "0xa") (codes "0xb") 5 7 ≡ codes "0x0xa:0xb:5:7"
unfolding compute_tx_hash raw_text to_digits digit_char
hash_text = refl

answers_of_actions : (run_actions keccak actions fresh).1 ≡ true ∷ false ∷ false ∷ true ∷ []
unfolding init_daemon load_state process_deposit_event save_state to_set compute_tx_hash raw_text
    to_digits digit_char member text_eq
answers_of_actions = refl

-- Where the file does not open, a daemon that starts again proposes the deposit a second time.
unsaved :
    (run_actions keccak
      (Action.deposit false event 7 ∷ Action.restart false ∷ Action.deposit false event 7 ∷ [])
      fresh).1
    ≡ true ∷ true ∷ []
unfolding init_daemon load_state process_deposit_event save_state to_set compute_tx_hash raw_text
    to_digits digit_char member text_eq
unsaved = refl

run_actions-refines_example :
    let first = load_state (StateFile.saved (codes "0xc" ∷ [])) [] in
    let (daemon, answers) =
      run_actions keccak actions (init_daemon false (StateFile.saved (codes "0xc" ∷ [])) []) in
    (answers ≡ (ledger keccak actions first).1)
    × (hashes daemon ++ first ≡ (ledger keccak actions first).0)
run_actions-refines_example =
    run_actions-refines keccak false (StateFile.saved (codes "0xc" ∷ [])) actions
      (refl, (tt, (refl, (refl, (refl, tt)))))

proposed_once_example :
    let seen = hashes (run_actions keccak actions fresh).0 ++ load_state StateFile.missing [] in
    AllDistinct seen × All (IsRecorded keccak seen) actions
proposed_once_example =
    proposed_once keccak false StateFile.missing actions (refl, (tt, (refl, (refl, (refl, tt)))))

abbrev dry : Daemon
dry = (process_deposit_event keccak true event 7 (init_daemon true StateFile.missing [])).0

-- A dry run keeps the live daemon after it from the deposit.
same_hash-dropped_example :
    (process_deposit_event keccak true other_chain 7 dry ≡ (dry, false))
    × (process_deposit_event keccak true other_chain 7
          (init_daemon false dry.state_file dry.proposals)
        ≡ (init_daemon false dry.state_file dry.proposals, false))
same_hash-dropped_example =
    same_hash-dropped keccak (init_daemon true StateFile.missing []) event 56 7 true false
      (unfold init_daemon load_state member in refl)

compute_tx_hash_collision_example :
    ((event.sender ≡ other_chain.sender)
      × (event.target_address ≡ other_chain.target_address)
      × (event.amount ≡ other_chain.amount)
      × (◌≡◌ {A = ℕ} 7 7))
    ⊎ ((s t : Text) × (s ≢ t) × (keccak s ≡ keccak t))
compute_tx_hash_collision_example =
    compute_tx_hash_collision keccak event other_chain 7 7 ((λ e. cc), ((λ e. cc), ((λ e. cc), tt)))
      ((λ e. cc), ((λ e. cc), ((λ e. cc), tt))) ((λ e. cc), ((λ e. cc), ((λ e. cc), tt)))
      ((λ e. cc), ((λ e. cc), ((λ e. cc), tt))) refl

run_result_example :
    ((latest_block : ℕ) (block_number : ℕ → ℕ)
      → (run keccak (Node.connected latest_block block_number) true false 2 fresh).0 ≡ fresh)
    × (run keccak Node.offline true false 2 fresh
        ≡ ((process_deposit_event keccak true simulated_event 124791 fresh).0, 124790 + 2))
run_result_example = run_result keccak true false 2 fresh
