-- ===== src/Freqtrade/Settled.antt =====
-- What was sent to the chain, against the ids in the state file.
use piso_chain.Base.{
  ℕ, ◌≡◌, inl, inr, refl, sym, subst, ◌∙◌, ◌⊎◌, replicate, true, false, Bool-cases, Option, none,
  some, List, [], ◌∷◌, ◌++◌, Text, arith, ◌==◌,
}
use piso_chain.Text.{codes}
use piso_chain.Freqtrade.{
  Client, Bridge, Submission, Receipt, is_in, mark_submitted, submit_trade_proof, marked,
  submit_one, hash_of_receipt,
}
use piso_chain.Freqtrade.Loop.{is_in-append, is_in-append_right}

abbrev pub settled_by : Option Receipt → ℕ → List ℕ → List ℕ
settled_by none trade_id ids = ids
settled_by (some receipt) trade_id ids = trade_id ∷ ids

module _ (client : Client) (ids : List ℕ) where
  -- the given ids, and those of the submissions that got a receipt
  abbrev pub settled : List Submission → List ℕ
  settled [] = ids
  settled (s ∷ sent) = settled_by (client.receipt sent s) s.trade_id (settled sent)

  -- Nothing was sent for a trade with one of the given ids, or that had got a receipt before.
  abbrev pub NeverAgain : List Submission → Type 0
  NeverAgain [] = Unit
  NeverAgain (s ∷ sent) = (is_in s.trade_id (settled sent) ≡ false) × NeverAgain sent

  -- Nothing was sent again, and what is settled is in the state file.
  abbrev pub Settled : Bridge → Type 0
  Settled bridge =
      NeverAgain bridge.sent
      × ((x : ℕ) → is_in x (settled bridge.sent) ≡ true → is_in x bridge.submitted_trade_ids ≡ true)

  -- What is not in the state file is not settled.
  unsettled :
      (x : ℕ) (bridge : Bridge)
      → Settled bridge
      → is_in x bridge.submitted_trade_ids ≡ false
      → is_in x (settled bridge.sent) ≡ false
  unsettled x bridge h fresh = elim (Bool-cases (is_in x (settled bridge.sent))) [
    | inl held ↦ absurd (contra (sym (h.1 x held) ∙ fresh))
    | inr free ↦ free
  ]
    where
      contra : true ≡ false → ⊥
      contra e = cc

  sent_again :
      (x trade_id : ℕ) (held submitted : List ℕ)
      → ((y : ℕ) → is_in y held ≡ true → is_in y submitted ≡ true)
      → is_in x (trade_id ∷ held) ≡ true
      → is_in x (submitted ++ trade_id ∷ []) ≡ true
  unfolding is_in
  sent_again x trade_id held submitted f h = elim (Bool-cases (trade_id == x)) [
    | inl same ↦ is_in-append_right x submitted (trade_id ∷ []) (unfold is_in in rw same refl)
    | inr other ↦ is_in-append x submitted (trade_id ∷ []) (f x (ground arith))
  ]

  -- A submission that the chain was sent, whether it got a receipt or not.
  sent-Settled :
      (s : Submission) (bridge : Bridge) (o : Option Receipt)
      → client.receipt bridge.sent s ≡ o
      → is_in s.trade_id bridge.submitted_trade_ids ≡ false
      → Settled bridge
      → Settled (marked s.trade_id (record bridge { sent = s ∷ bridge.sent }) (hash_of_receipt o)).0
  unfolding marked mark_submitted
  sent-Settled s bridge none e fresh h = (
    (unsettled s.trade_id bridge h fresh, h.0),
    λ x k. h.1 x (subst (λ o. is_in x (settled_by o s.trade_id (settled bridge.sent)) ≡ true) e k),
  )
  sent-Settled s bridge (some receipt) e fresh h = (
    (unsettled s.trade_id bridge h fresh, h.0),
    λ x k.
        sent_again x s.trade_id (settled bridge.sent) bridge.submitted_trade_ids h.1
          (subst (λ o. is_in x (settled_by o s.trade_id (settled bridge.sent)) ≡ true) e k),
  )

  -- The ways in which a submission ends: no oracle, a dry run, or what the chain was sent.
  submitted_cases :
      (s : Submission) (sent : List Submission)
      → (submit_trade_proof client s sent ≡ (sent, none))
        ⊎ (((tx_hash : Text) × (submit_trade_proof client s sent ≡ (sent, some tx_hash)))
            ⊎ (submit_trade_proof client s sent
                ≡ (s ∷ sent, hash_of_receipt (client.receipt sent s))))
  unfolding submit_trade_proof
  submitted_cases s sent = elim (Bool-cases client.oracle) [
    | inr closed ↦ inl (rw closed refl)
    | inl open_oracle ↦ elim (Bool-cases client.dry_run) [
      | inl dry ↦ inr (inl (codes "0x" ++ replicate 64 b'0', rw (open_oracle, dry) refl))
      | inr live ↦ inr (inr (simp (open_oracle, live) refl))
    ]
  ]

  pub submit_one-Settled :
      (s : Submission) (bridge : Bridge)
      → is_in s.trade_id bridge.submitted_trade_ids ≡ false
      → Settled bridge
      → Settled (submit_one client s bridge).0
  unfolding submit_one marked mark_submitted
  submit_one-Settled s bridge fresh h = elim (submitted_cases s bridge.sent) [
    | inl e ↦ subst ended (sym e) h
    | inr (inl (tx_hash, e)) ↦
        subst ended (sym e)
          (h.0, λ x k. is_in-append x bridge.submitted_trade_ids (s.trade_id ∷ []) (h.1 x k))
    | inr (inr e) ↦
        subst ended (sym e) (sent-Settled s bridge (client.receipt bridge.sent s) refl fresh h)
  ]
    where
      ended : List Submission × Option Text → Type 0
      ended r = Settled (marked s.trade_id (record bridge { sent = r.0 }) r.1).0
