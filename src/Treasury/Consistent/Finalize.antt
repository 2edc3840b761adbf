-- ===== src/Treasury/Consistent/Finalize.antt =====
-- `finalize_block_reward` keeps the invariant.
use piso_chain.Base.{ℕ, ◌≡◌, refl, false, arith, Text, text_eq, text_eq_iff, text_key, nat_key}
use piso_chain.Text.{lower}
use piso_chain.Int.{ℤ, pos, ◌+ℤ◌, ◌-ℤ◌, ◌≤ℤ◌, int_laws}
use piso_chain.Dict.{Dict, insert}
use piso_chain.Dict.Laws.{beq_refl}
use piso_chain.Dict.Total.{total, total-insert}
use piso_chain.Dict.Values.{AllValues, AllValues-insert, AllValues-get_default, AllValues-map}
use piso_chain.Treasury.{Engine, Snapshot, balance, treasury_address, finalize_block_reward}
use piso_chain.Treasury.Effects.{
  after, payout, recorded, balance-finalize, history-finalize, distributed-finalize,
  contains-finalize,
}
use piso_chain.Treasury.Reward.{payout_bounds}
use piso_chain.Treasury.Consistent.{
  IsFine, IsConsistent, credit_to, payout_of, credit_nonneg, credit-blank, blank,
}

-- A new snapshot adds at most its own share to a sum over the history.
total-insert_le :
    (f : Snapshot → ℤ) (n : ℕ) (s : Snapshot) (history : Dict ℕ Snapshot)
    → f blank ≡ pos 0
    → AllValues (λ s. pos 0 ≤ℤ f s) history
    → total f (insert n s history) ≤ℤ total f history +ℤ f s
total-insert_le f n s history hb h = grind (
  int_laws,
  total-insert f blank n s history hb,
  AllValues-get_default (λ s. pos 0 ≤ℤ f s) blank n history (rw hb (omega arith)) h,
)

module _ {supply : ℤ} (now : ℕ) (e : Engine) (n : ℕ) (m : Text) (fees : ℤ)
    (h : IsConsistent supply e) (fees_nonneg : pos 0 ≤ℤ fees)
    (other : text_eq (lower m) treasury_address ≡ false) where
  treasury-after :
      balance (after now e n m fees) treasury_address ≡ balance e treasury_address -ℤ payout e n
  treasury-after =
      rw (balance-finalize now e n m fees treasury_address)
        (rw (other, beq_refl {K = Text} treasury_address) refl)

  recorded-IsFine : IsFine (after now e n m fees) (recorded now e n m fees)
  recorded-IsFine = record {
    payout_nonneg = (payout_bounds e n h.treasury_nonneg).0;
    fees_nonneg = fees_nonneg;
    other = other;
    known = rw (contains-finalize now e n m fees) (rw (beq_refl {K = Text} (lower m)) refl);
  }

  AllValues-after : AllValues (IsFine (after now e n m fees)) (after now e n m fees).block_history
  AllValues-after = rw (history-finalize now e n m fees) (
      AllValues-insert (IsFine (after now e n m fees)) n (recorded now e n m fees) e.block_history
        recorded-IsFine
        (AllValues-map (IsFine e) (IsFine (after now e n m fees)) e.block_history
          (λ s f. record {
            payout_nonneg = f.payout_nonneg;
            fees_nonneg = f.fees_nonneg;
            other = f.other;
            known = rw (contains-finalize now e n m fees) (rw f.known (ground arith));
          })
          h.fine))

  covered-after :
      (a : Text)
      → text_eq a treasury_address ≡ false
      → total (credit_to a) (after now e n m fees).block_history ≤ℤ balance (after now e n m fees) a
  covered-after a ne =
      rw (history-finalize now e n m fees, balance-finalize now e n m fees a)
        (grind (
          int_laws,
          h.covered a ne,
          text_eq_iff treasury_address a,
          text_eq_iff a treasury_address,
          total-insert_le (credit_to a) n (recorded now e n m fees) e.block_history (credit-blank a)
              (AllValues-map (IsFine e) (λ s. pos 0 ≤ℤ credit_to a s) e.block_history
                (λ s f. credit_nonneg a {e = e} s f) h.fine),
        ))

  paid-after :
      total payout_of (after now e n m fees).block_history
      ≤ℤ (after now e n m fees).total_distributed_wei
  paid-after =
      rw (history-finalize now e n m fees, distributed-finalize now e n m fees)
        (omega (
          int_laws,
          h.paid,
          total-insert_le payout_of n (recorded now e n m fees) e.block_history refl (
              AllValues-map (IsFine e) (λ s. pos 0 ≤ℤ payout_of s) e.block_history
                (λ s f. f.payout_nonneg) h.fine),
        ))

  pub finalize-IsConsistent : IsConsistent supply (finalize_block_reward now e n m fees).0
  finalize-IsConsistent = record {
    conserved =
        rw (treasury-after, distributed-finalize now e n m fees)
          (rw (← h.conserved) (omega int_laws));
    treasury_nonneg = rw treasury-after (omega (int_laws, (payout_bounds e n h.treasury_nonneg).2));
    treasury_known = rw (contains-finalize now e n m fees) (rw h.treasury_known (ground arith));
    fine = AllValues-after;
    covered = covered-after;
    paid = paid-after;
  }
