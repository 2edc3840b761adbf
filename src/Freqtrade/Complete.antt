-- ===== src/Freqtrade/Complete.antt =====
-- A poll on which nothing fails: every closed trade is submitted, and the next poll has nothing to do.
use piso_chain.Base.{
  ℕ, suc, ◌+◌, ◌≡◌, refl, subst, sym, ap, ◌∙◌, true, false, Bool-cases, inl, inr, some, List, [],
  ◌∷◌, ◌++◌, All, length, replicate, Text, arith,
}
use piso_chain.Text.{codes}
use piso_chain.Freqtrade.{
  Library, Trade, Feed, Client, Bridge, Submission, Receipt, is_in, ping, get_closed_trades,
  new_trades, marked, mark_submitted, submit_trade_proof, submit_one, submit_next, submit_trades,
  prepared, poll_and_submit,
}
use piso_chain.Freqtrade.Loop.{is_in-append, is_in-append_right, ids_of, append-snoc, append_nil}
use piso_chain.Freqtrade.Polls.{IsOf, prepared-IsOf}

-- The oracle is there, and the chain gives every submission a receipt, of whatever status.
abbrev pub Accepts : Client → Type 0
Accepts client =
    (client.oracle ≡ true)
    × ((sent : List Submission) (s : Submission)
        → (receipt : Receipt) × (client.receipt sent s ≡ some receipt))

module _ (library : Library) (client : Client) (accepts : Accepts client) where
  submit_trade_proof-some :
      (s : Submission) (sent : List Submission)
      → (tx_hash : Text) × ((submit_trade_proof client s sent).1 ≡ some tx_hash)
  unfolding submit_trade_proof
  submit_trade_proof-some s sent = elim (Bool-cases client.dry_run) [
    | inl dry ↦ (codes "0x" ++ replicate 64 b'0', rw (accepts.0, dry) refl)
    | inr live ↦
        let (receipt, e) = accepts.1 sent s in (receipt.tx_hash, rw (accepts.0, live, e) refl)
  ]

  -- Nothing raises before the submission of the trade.
  abbrev pub IsPrepared : Trade library → Type 0
  IsPrepared t = (s : Submission) × (prepared library client t ≡ some s)

  submit_next_marks :
      (t : Trade library) (bridge : Bridge)
      → IsPrepared t
      → ((submit_next library client t bridge).1 ≡ some true)
        × ((submit_next library client t bridge).0.submitted_trade_ids
            ≡ bridge.submitted_trade_ids ++ t.trade_id ∷ [])
  unfolding submit_next submit_one
  submit_next_marks t bridge (s, e) =
      let same : s.trade_id ≡ t.trade_id =
        subst (IsOf library client t.trade_id) e (prepared-IsOf library client t) in
      let (tx_hash, found) = submit_trade_proof-some s bridge.sent in
      rw (e, found)
        (unfold marked mark_submitted in
          (refl, ap (λ id. bridge.submitted_trade_ids ++ id ∷ []) same))

  submit_next_sends :
      (t : Trade library) (bridge : Bridge) (s : Submission)
      → prepared library client t ≡ some s
      → (client.dry_run ≡ false → (submit_next library client t bridge).0.sent ≡ s ∷ bridge.sent)
        × (client.dry_run ≡ true → (submit_next library client t bridge).0.sent ≡ bridge.sent)
  unfolding submit_next submit_one submit_trade_proof
  submit_next_sends t bridge s e =
      let (receipt, got) = accepts.1 bridge.sent s in
      (
        λ live. rw (e, accepts.0, live, got) (unfold marked mark_submitted in refl),
        λ dry. rw (e, accepts.0, dry) (unfold marked mark_submitted in refl),
      )

  -- The submissions of the trades were sent one by one, and nothing else.
  abbrev pub SentAll : List Submission → List (Trade library) → List Submission → Type 0
  SentAll before [] after = after ≡ before
  SentAll before (t ∷ trades) after =
      (s : Submission) × (prepared library client t ≡ some s) × SentAll (s ∷ before) trades after

  submit_trades_sends :
      (trades : List (Trade library)) (n : ℕ) (bridge : Bridge)
      → All IsPrepared trades
      → (client.dry_run ≡ false
          → SentAll bridge.sent trades (submit_trades library client trades n bridge).0.sent)
        × (client.dry_run ≡ true
            → (submit_trades library client trades n bridge).0.sent ≡ bridge.sent)
  unfolding submit_trades
  submit_trades_sends [] n bridge h = (λ live. refl, λ dry. refl)
  submit_trades_sends (t ∷ trades) n bridge h =
      let r = submit_next library client t bridge in
      let (count, ids) = submit_next_marks t bridge h.0 in
      let (s, e) = h.0 in
      let (one_sent, none_sent) = submit_next_sends t bridge s e in
      let (all_sent, all_dry) = submit_trades_sends trades (suc n) r.0 h.1 in
      rw count (
        λ live. (
          s,
          e,
          subst (λ b. SentAll b trades (submit_trades library client trades (suc n) r.0).0.sent)
              (one_sent live) (all_sent live),
        ),
        λ dry. all_dry dry ∙ none_sent dry,
      )

  submit_trades_all :
      (trades : List (Trade library)) (n : ℕ) (bridge : Bridge)
      → All IsPrepared trades
      → ((submit_trades library client trades n bridge).1 ≡ some (n + length trades))
        × ((submit_trades library client trades n bridge).0.submitted_trade_ids
            ≡ bridge.submitted_trade_ids ++ ids_of library trades)
  unfolding submit_trades
  submit_trades_all [] n bridge h =
      (ap some (omega arith), sym (append_nil bridge.submitted_trade_ids))
  submit_trades_all (t ∷ trades) n bridge h =
      let r = submit_next library client t bridge in
      let (count, ids) = submit_next_marks t bridge h.0 in
      let (total, all) = submit_trades_all trades (suc n) r.0 h.1 in
      rw count (
        total ∙ ap some (omega arith),
        all
            ∙ ap (λ xs. xs ++ ids_of library trades) ids
            ∙ append-snoc t.trade_id bridge.submitted_trade_ids (ids_of library trades),
      )

  new_trades-All :
      (ids : List ℕ) (trades : List (Trade library))
      → All IsPrepared trades
      → All IsPrepared (new_trades library ids trades)
  unfolding new_trades
  new_trades-All ids [] h = tt
  new_trades-All ids (t ∷ trades) h = elim (Bool-cases (is_in t.trade_id ids)) [
    | inl old ↦ rw old (new_trades-All ids trades h.1)
    | inr new ↦ rw new (h.0, new_trades-All ids trades h.1)
  ]

  -- Where the ids and those of the new trades are among `after`, no trade is new for `after`.
  new_trades-none :
      (ids after : List ℕ) (trades : List (Trade library))
      → ((x : ℕ) → is_in x ids ≡ true → is_in x after ≡ true)
      → ((x : ℕ)
          → is_in x (ids_of library (new_trades library ids trades)) ≡ true
          → is_in x after ≡ true)
      → new_trades library after trades ≡ []
  unfolding new_trades
  new_trades-none ids after [] f g = refl
  new_trades-none ids after (t ∷ trades) f g = elim (Bool-cases (is_in t.trade_id ids)) [
    | inl old ↦ rw (f t.trade_id old) (new_trades-none ids after trades f (λ x h. g x (rw old h)))
    | inr new ↦
        let here : is_in t.trade_id after ≡ true =
          g t.trade_id (rw new (unfold is_in in ground arith)) in
        rw here
          (new_trades-none ids after trades f (λ x h. g x (rw new (unfold is_in in ground arith))))
  ]

  -- On a bot that is online and a chain that gives every submission a receipt, whatever its status, and
  -- where every closed trade has dates that parse and a ratio that converts: a poll sends the chain the
  -- submissions of the closed trades that are new, one for each, in their order, and nothing else; it
  -- counts them; their ids come after those of before; and the next poll on the same answer changes
  -- nothing. A dry run counts and marks the same trades, and sends nothing.
  pub poll_submits_all :
      (feed : Feed library) (bridge : Bridge)
      → feed.ping_status ≡ some 200
      → All IsPrepared (get_closed_trades library feed.trades)
      → let new =
          new_trades library bridge.submitted_trade_ids (get_closed_trades library feed.trades) in
        let (after, count) = poll_and_submit library client feed bridge in
        (client.dry_run ≡ false → SentAll bridge.sent new after.sent)
        × (client.dry_run ≡ true → after.sent ≡ bridge.sent)
        × (count ≡ some (length new))
        × (after.submitted_trade_ids ≡ bridge.submitted_trade_ids ++ ids_of library new)
        × (poll_and_submit library client feed after ≡ (after, some 0))
  unfolding poll_and_submit ping
  poll_submits_all feed bridge online h =
      let closed = get_closed_trades library feed.trades in
      let ids = bridge.submitted_trade_ids in
      let new = new_trades library ids closed in
      let (live_sent, dry_sent) = submit_trades_sends new 0 bridge (new_trades-All ids closed h) in
      let done = submit_trades_all new 0 bridge (new_trades-All ids closed h) in
      let after = (submit_trades library client new 0 bridge).0 in
      let rest : new_trades library after.submitted_trade_ids closed ≡ [] =
        new_trades-none ids after.submitted_trade_ids closed
          (λ x k. ap (is_in x) done.1 ∙ is_in-append x ids (ids_of library new) k)
          (λ x k. ap (is_in x) done.1 ∙ is_in-append_right x ids (ids_of library new) k) in
      rw online (
        live_sent,
        dry_sent,
        done.0 ∙ ap some (omega arith),
        done.1,
        rw rest (unfold submit_trades in refl),
      )
