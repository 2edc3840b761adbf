-- ===== src/Treasury/Consistent/Undone.antt =====
-- `rollback_block_reorg` keeps the invariant, and then never meets a missing key.
use piso_chain.Base.{
  ◌||◌, ℕ, ◌≡◌, false, none, some, arith, if◌then◌else◌, Text, text_eq, text_eq_iff, text_key,
  nat_key, Option-cases, inl, inr,
}
use piso_chain.Int.{ℤ, ◌+ℤ◌, ◌-ℤ◌, ◌≤ℤ◌, int_laws}
use piso_chain.Dict.{lookup, contains}
use piso_chain.Dict.Laws.{beq_refl}
use piso_chain.Dict.Total.{total, total-erase}
use piso_chain.Dict.Values.{AllValues-erase, AllValues-lookup, AllValues-map}
use piso_chain.Treasury.{
  Engine, Snapshot, Rollback, key_error, not_found, balance, treasury_address, rollback_block_reorg,
  roll_back,
}
use piso_chain.Treasury.Undo.{undone, rollback-eq-undone, balance-undone, contains-undone}
use piso_chain.Treasury.Consistent.{IsFine, IsConsistent, credit_to, payout_of}

module _ {supply : ℤ} (e : Engine) (n : ℕ) (s : Snapshot) (h : IsConsistent supply e)
    (found : lookup n e.block_history ≡ some s) where
  pub recorded-IsFine : IsFine e s
  recorded-IsFine = AllValues-lookup (IsFine e) n s e.block_history found h.fine

  -- the engine that the rollback leaves
  abbrev pub rolled : Engine
  rolled = undone e n s found h.treasury_known recorded-IsFine.known

  balance-rolled :
      (a : Text)
      → balance rolled a
        ≡ (if text_eq treasury_address a then balance e a +ℤ s.treasury_payout_wei else balance e a)
          -ℤ credit_to a s
  balance-rolled a = balance-undone e n s found h.treasury_known recorded-IsFine.known a

  treasury-rolled :
      balance rolled treasury_address ≡ balance e treasury_address +ℤ s.treasury_payout_wei
  treasury-rolled =
      rw (balance-rolled treasury_address)
        (rw (recorded-IsFine.other, beq_refl {K = Text} treasury_address) (omega int_laws))

  contains-rolled :
      (a : Text)
      → contains a rolled.balances
        ≡ (text_eq s.miner a || text_eq treasury_address a || contains a e.balances)
  contains-rolled = contains-undone e n s found h.treasury_known recorded-IsFine.known

  covered-rolled :
      (a : Text)
      → text_eq a treasury_address ≡ false
      → total (credit_to a) rolled.block_history ≤ℤ balance rolled a
  covered-rolled a ne = rw (balance-rolled a) (
      grind (
        int_laws,
        h.covered a ne,
        text_eq_iff treasury_address a,
        text_eq_iff a treasury_address,
        total-erase (credit_to a) n s e.block_history found,
      ))

  pub rolled-IsConsistent : IsConsistent supply rolled
  rolled-IsConsistent = record {
    conserved = rw treasury-rolled (rw (← h.conserved) (omega int_laws));
    treasury_nonneg =
        rw treasury-rolled (omega (int_laws, h.treasury_nonneg, recorded-IsFine.payout_nonneg));
    treasury_known = rw (contains-rolled treasury_address) (rw h.treasury_known (ground arith));
    fine = AllValues-erase (IsFine rolled) n e.block_history (
        AllValues-map (IsFine e) (IsFine rolled) e.block_history
          (λ t f. record {
            payout_nonneg = f.payout_nonneg;
            fees_nonneg = f.fees_nonneg;
            other = f.other;
            known = rw (contains-rolled t.miner) (rw f.known (ground arith));
          })
          h.fine);
    covered = covered-rolled;
    paid = grind (int_laws, h.paid, total-erase payout_of n s e.block_history found);
  }

-- Rolling back a block that is not in the history changes nothing.
pub rollback_missing :
    (e : Engine) (n : ℕ)
    → lookup n e.block_history ≡ none
    → rollback_block_reorg e n ≡ (e, not_found n)
unfolding rollback_block_reorg
rollback_missing e n h = rw (h, roll_back)

abbrev pub IsKeyError : Rollback → Type 0
IsKeyError (key_error a) = Unit
IsKeyError _ = ⊥

pub rollback-IsConsistent :
    {supply : ℤ} (e : Engine) (n : ℕ)
    → IsConsistent supply e
    → IsConsistent supply (rollback_block_reorg e n).0 × ¬ IsKeyError (rollback_block_reorg e n).1
rollback-IsConsistent e n h = elim (Option-cases (lookup n e.block_history)) [
  | inl missing ↦ rw (rollback_missing e n missing) (h, λ k. k)
  | inr (s, found) ↦
      rw (rollback-eq-undone e n s found h.treasury_known (recorded-IsFine e n s h found).known)
        (rolled-IsConsistent e n s h found, λ k. k)
]
