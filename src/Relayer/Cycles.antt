-- ===== src/Relayer/Cycles.antt =====
-- The loop of `run`: what its cycles do.
use piso_chain.Base.{
  ℕ, zero, suc, ◌+◌, ◌<◌, ◌≡◌, refl, ap, ◌∙◌, Bool, true, false, Text, arith, if◌then◌else◌,
}
use piso_chain.Relayer.{
  Daemon, Node, simulated_event, first_block, process_deposit_event, inject, run_cycles, run,
}

module _ (keccak : Text → Text) (writable : Bool) where
  run_cycles-idle :
      (block_number : ℕ → ℕ) (once : Bool) (sleeps cycle last : ℕ) (daemon : Daemon)
      → (run_cycles keccak writable true block_number once sleeps cycle last daemon).0 ≡ daemon
  unfolding run_cycles inject
  run_cycles-idle block_number once zero cycle last daemon = refl
  run_cycles-idle block_number true (suc sleeps) cycle last daemon = refl
  run_cycles-idle block_number false (suc sleeps) cycle last daemon =
      run_cycles-idle block_number false sleeps (cycle + 1) (block_number (cycle + 1)) daemon

  inject_later :
      (cycle block_number : ℕ) (daemon : Daemon)
      → 0 < cycle
      → inject keccak writable false (cycle + 1) block_number daemon ≡ daemon
  unfolding inject
  inject_later cycle block_number daemon h = ground arith

  run_cycles-later :
      (block_number : ℕ → ℕ) (sleeps cycle last : ℕ) (daemon : Daemon)
      → 0 < cycle
      → run_cycles keccak writable false block_number false sleeps cycle last daemon
        ≡ (daemon, last + sleeps)
  unfolding run_cycles
  run_cycles-later block_number zero cycle last daemon h =
      rw (inject_later cycle (last + 1) daemon h) (ap (λ n. (daemon, n)) (omega arith))
  run_cycles-later block_number (suc sleeps) cycle last daemon h =
      rw (inject_later cycle (last + 1) daemon h) (
        run_cycles-later block_number sleeps (cycle + 1) (last + 1) daemon (omega arith)
        ∙ ap (λ n. (daemon, n)) (omega arith))

  -- the daemon after the simulated deposit
  abbrev injected : Daemon → Daemon
  injected daemon = (process_deposit_event keccak writable simulated_event 124791 daemon).0

  offline_result :
      (once : Bool) (sleeps : ℕ) (daemon : Daemon)
      → run_cycles keccak writable false (λ cycle. 0) once sleeps 0 124790 daemon
        ≡ (injected daemon, 124790 + (if once then 0 else sleeps))
  unfolding run_cycles inject
  offline_result true zero daemon = refl
  offline_result false zero daemon = refl
  offline_result true (suc sleeps) daemon = refl
  offline_result false (suc sleeps) daemon =
      run_cycles-later (λ cycle. 0) sleeps 1 124791 (injected daemon) (omega arith)
      ∙ ap (λ n. (injected daemon, n)) (omega arith)

  -- On a node that answers, `run` leaves the daemon, its state file and its proposals as they are,
  -- whatever the chain holds, for one cycle as for any number of them. Without a node it processes one
  -- deposit, the simulated one, in block 124791, and no other, and the last block that it has scanned
  -- is 124790 and one more for each sleep that ended, which is none where it runs once.
  pub run_result :
      (once : Bool) (sleeps : ℕ) (daemon : Daemon)
      → ((latest_block : ℕ) (block_number : ℕ → ℕ)
          → (run keccak (Node.connected latest_block block_number) writable once sleeps daemon).0
            ≡ daemon)
        × (run keccak Node.offline writable once sleeps daemon ≡ (
          (process_deposit_event keccak writable simulated_event 124791 daemon).0,
          124790 + (if once then 0 else sleeps),
        ))
  unfolding run
  run_result once sleeps daemon = (
    λ latest_block block_number.
        run_cycles-idle block_number once sleeps 0 (first_block latest_block) daemon,
    offline_result once sleeps daemon,
  )
