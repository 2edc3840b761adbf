-- ===== src/Treasury/Undo.antt =====
-- What a successful rollback does: the treasury gets the payout back, the miner gives the credit.
use piso_chain.Base.{
  ◌||◌, ℕ, ◌≡◌, refl, true, some, arith, if◌then◌else◌, Text, text_eq, text_eq_iff, text_key,
  nat_key,
}
use piso_chain.Int.{ℤ, pos, ◌+ℤ◌, ◌-ℤ◌, int_laws}
use piso_chain.Dict.{Dict, lookup, get_default, contains, insert, erase}
use piso_chain.Dict.Laws.{get_default-insert, get_default-eq, contains-eq, contains-insert}
use piso_chain.Treasury.{
  Engine, Snapshot, rolled_back, balance, treasury_address, add_to, rollback_block_reorg, roll_back,
  restore_treasury, deduct_from_miner,
}

pub add_to_lem :
    (a : Text) (x : ℤ) (d : Dict Text ℤ)
    → contains a d ≡ true
    → add_to a x d ≡ some (insert a (get_default (pos 0) a d +ℤ x) d)
unfolding add_to
add_to_lem a x d h = ground (arith, contains-eq a d, get_default-eq (pos 0) a d)

module _ (e : Engine) (n : ℕ) (s : Snapshot) (found : lookup n e.block_history ≡ some s)
    (treasury_known : contains treasury_address e.balances ≡ true)
    (miner_known : contains s.miner e.balances ≡ true) where
  unfoldable pub restored : Dict Text ℤ
  restored =
      insert treasury_address
        (get_default (pos 0) treasury_address e.balances +ℤ s.treasury_payout_wei) e.balances

  abbrev pub taken : ℤ
  taken = s.treasury_payout_wei +ℤ s.tx_fees_wei

  unfoldable pub deducted : Dict Text ℤ
  unfolding restored
  deducted = insert s.miner (get_default (pos 0) s.miner restored +ℤ (pos 0 -ℤ taken)) restored

  -- the engine that a successful rollback leaves
  abbrev pub undone : Engine
  undone = record e {
    balances = deducted;
    block_history = erase n e.block_history;
    total_distributed_wei = e.total_distributed_wei -ℤ s.treasury_payout_wei;
  }

  miner_known_restored : contains s.miner restored ≡ true
  unfolding restored
  miner_known_restored = rw (contains-insert, miner_known) (ground arith)

  pub rollback-eq-undone : rollback_block_reorg e n ≡ (
    undone,
    rolled_back n
        (get_default (pos 0) treasury_address undone.balances)
        undone.total_distributed_wei,
  )
  unfolding rollback_block_reorg deducted restored
  rollback-eq-undone =
      rw (found, roll_back)
        (rw (add_to_lem _ _ _ treasury_known, restore_treasury)
          (rw (add_to_lem _ _ _ miner_known_restored, deduct_from_miner) refl))

  pub balance-undone :
      (a : Text)
      → balance undone a
        ≡ (if text_eq treasury_address a then balance e a +ℤ s.treasury_payout_wei else balance e a)
          -ℤ (if text_eq s.miner a then taken else pos 0)
  unfolding balance deducted restored
  balance-undone a =
      simp get_default-insert
        (grind (int_laws, text_eq_iff s.miner a, text_eq_iff treasury_address a))

  pub contains-undone :
      (a : Text)
      → contains a undone.balances
        ≡ (text_eq s.miner a || text_eq treasury_address a || contains a e.balances)
  unfolding deducted restored
  contains-undone a = simp contains-insert (ground arith)
