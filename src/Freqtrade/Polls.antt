-- ===== src/Freqtrade/Polls.antt =====
-- Polls in sequence: no trade is submitted twice, and every closed trade is submitted.
use piso_chain.Base.{
  ℕ, ◌≡◌, ◌⊎◌, inl, inr, refl, subst, ap, ◌∙◌, true, false, Bool, Bool-cases, Option, Option-cases,
  none, some, List, [], ◌∷◌, ◌++◌, All, Text,
}
use piso_chain.Freqtrade.{
  Library, Trade, Feed, Client, Bridge, Submission, is_in, ping, get_closed_trades, new_trades,
  mark_submitted, submit_trade_proof, marked, attempted, submit_next, counted, unless_raised,
  submit_one, submit_trades, prepared, date_of, profit_bps_of, load_bridge, poll_and_submit,
  run_loop,
}
use piso_chain.Freqtrade.Settled.{settled, NeverAgain, Settled, submit_one-Settled}
use piso_chain.Freqtrade.Loop.{
  AllDifferent, snoc-AllDifferent, ids_of, AllFresh, AllFresh-snoc, new_trades-AllFresh,
}

module _ (library : Library) (client : Client) where
  -- The id of a trade that was prepared is the trade's.
  abbrev pub IsOf : ℕ → Option Submission → Type 0
  IsOf trade_id none = Unit
  IsOf trade_id (some submission) = submission.trade_id ≡ trade_id

  pub prepared-IsOf : (t : Trade library) → IsOf t.trade_id (prepared library client t)
  unfolding prepared
  prepared-IsOf t = elim (Option-cases (profit_bps_of library t.profit_ratio)) [
    | inl e ↦ rw e tt
    | inr (bps, e) ↦ rw e (elim (Option-cases (date_of library t.open_date)) [
      | inl e' ↦ rw e' tt
      | inr (open_ts, e') ↦ rw e' (elim (Option-cases (date_of library t.close_date)) [
        | inl e'' ↦ rw e'' tt
        | inr (close_ts, e'') ↦ rw e'' refl
      ])
    ])
  ]

  -- The ids after a round are those before it, or one more at the end.
  abbrev Extended : ℕ → List ℕ → List ℕ → Type 0
  Extended trade_id ids after = (after ≡ ids) ⊎ (after ≡ ids ++ trade_id ∷ [])

  marked-Extended :
      (trade_id : ℕ) (bridge : Bridge) (tx_hash : Option Text)
      → Extended trade_id bridge.submitted_trade_ids
          (marked trade_id bridge tx_hash).0.submitted_trade_ids
  unfolding marked mark_submitted
  marked-Extended trade_id bridge none = inl refl
  marked-Extended trade_id bridge (some tx_hash) = inr refl

  attempted-Extended :
      (trade_id : ℕ) (bridge : Bridge) (p : Option Submission)
      → IsOf trade_id p
      → Extended trade_id bridge.submitted_trade_ids
          (attempted client bridge p).0.submitted_trade_ids
  unfolding submit_one
  attempted-Extended trade_id bridge none is = inl refl
  attempted-Extended trade_id bridge (some s) is =
      let r = submit_trade_proof client s bridge.sent in
      subst
        (λ id.
          Extended id bridge.submitted_trade_ids
            (marked s.trade_id (record bridge { sent = r.0 }) r.1).0.submitted_trade_ids)
        is (marked-Extended s.trade_id (record bridge { sent = r.0 }) r.1)

  submit_next-Extended :
      (t : Trade library) (bridge : Bridge)
      → Extended t.trade_id bridge.submitted_trade_ids
          (submit_next library client t bridge).0.submitted_trade_ids
  unfolding submit_next
  submit_next-Extended t bridge =
      attempted-Extended t.trade_id bridge (prepared library client t) (prepared-IsOf t)

  -- After a round the ids still differ, and the trades to come are still new.
  Extended-AllFresh :
      (t : Trade library) (trades : List (Trade library)) (ids after : List ℕ)
      → Extended t.trade_id ids after
      → AllFresh library ids (t ∷ trades)
      → AllDifferent ids
      → AllDifferent after × AllFresh library after trades
  Extended-AllFresh t trades ids after (inl same) fresh d = rw same (d, fresh.2)
  Extended-AllFresh t trades ids after (inr more) fresh d = rw more (
    snoc-AllDifferent t.trade_id ids fresh.0 d,
    AllFresh-snoc library t.trade_id ids trades fresh.1 fresh.2,
  )

  submit_next-Settled :
      (start : List ℕ) (t : Trade library) (bridge : Bridge)
      → is_in t.trade_id bridge.submitted_trade_ids ≡ false
      → Settled client start bridge
      → Settled client start (submit_next library client t bridge).0
  unfolding submit_next
  submit_next-Settled start t bridge fresh h =
      attempted_settled (prepared library client t) (prepared-IsOf t)
    where
      attempted_settled :
          (p : Option Submission)
          → IsOf t.trade_id p
          → Settled client start (attempted client bridge p).0
      attempted_settled none is = h
      attempted_settled (some s) is =
          submit_one-Settled client start s bridge
            (ap (λ id. is_in id bridge.submitted_trade_ids) is ∙ fresh) h

  -- The ids in the state file differ, and nothing was sent again.
  abbrev pub IsOnce : List ℕ → Bridge → Type 0
  IsOnce start bridge = AllDifferent bridge.submitted_trade_ids × Settled client start bridge

  unless_raised-IsOnce :
      (start : List ℕ) (c : Option Bool) (bridge : Bridge) (rest : Bridge × Option ℕ)
      → IsOnce start bridge
      → IsOnce start rest.0
      → IsOnce start (unless_raised c bridge rest).0
  unless_raised-IsOnce start none bridge rest d d' = d
  unless_raised-IsOnce start (some c) bridge rest d d' = d'

  submit_trades-IsOnce :
      (start : List ℕ) (trades : List (Trade library)) (n : ℕ) (bridge : Bridge)
      → AllFresh library bridge.submitted_trade_ids trades
      → IsOnce start bridge
      → IsOnce start (submit_trades library client trades n bridge).0
  unfolding submit_trades
  submit_trades-IsOnce start [] n bridge fresh d = d
  submit_trades-IsOnce start (t ∷ trades) n bridge fresh d =
      let r = submit_next library client t bridge in
      let (d', fresh') =
        Extended-AllFresh t trades bridge.submitted_trade_ids r.0.submitted_trade_ids
          (submit_next-Extended t bridge) fresh d.0 in
      let h = submit_next-Settled start t bridge fresh.0 d.1 in
      unless_raised-IsOnce start r.1 r.0 (submit_trades library client trades (counted r.1 n) r.0)
        (d', h) (submit_trades-IsOnce start trades (counted r.1 n) r.0 fresh' (d', h))

  -- The trades of an answer have different ids.
  abbrev pub HasDifferentIds : Feed library → Type 0
  HasDifferentIds feed = AllDifferent (ids_of library (get_closed_trades library feed.trades))

  poll_and_submit-IsOnce :
      (start : List ℕ) (feed : Feed library) (bridge : Bridge)
      → HasDifferentIds feed
      → IsOnce start bridge
      → IsOnce start (poll_and_submit library client feed bridge).0
  unfolding poll_and_submit
  poll_and_submit-IsOnce start feed bridge h d = elim (Bool-cases (ping feed.ping_status)) [
    | inr off ↦ rw off d
    | inl on ↦ rw on (
        submit_trades-IsOnce start
          (new_trades library bridge.submitted_trade_ids (get_closed_trades library feed.trades)) 0
          bridge
          (new_trades-AllFresh library bridge.submitted_trade_ids
            (get_closed_trades library feed.trades) h)
          d)
  ]

  run_loop-IsOnce :
      (start : List ℕ) (feeds : List (Feed library)) (bridge : Bridge)
      → All HasDifferentIds feeds
      → IsOnce start bridge
      → IsOnce start (run_loop library client feeds bridge)
  unfolding run_loop
  run_loop-IsOnce start [] bridge h d = d
  run_loop-IsOnce start (feed ∷ feeds) bridge h d =
      run_loop-IsOnce start feeds (poll_and_submit library client feed bridge).0 h.1
        (poll_and_submit-IsOnce start feed bridge h.0 d)

  -- Over any polls, whatever the chain answers and whichever polls end in an exception: nothing is sent
  -- to the chain for a trade whose id the state file had, or that has got a receipt before; the ids of
  -- the trades that got a receipt are in the state file at the end, with those that it had; and no id
  -- stands there twice. This holds if the ids of the state file differ and the closed trades of each
  -- answer have different ids.
  pub submitted_once :
      (ids : List ℕ) (feeds : List (Feed library))
      → AllDifferent ids
      → All HasDifferentIds feeds
      → let after = run_loop library client feeds (load_bridge (some ids)) in
        NeverAgain client ids after.sent
        × ((x : ℕ)
            → is_in x (settled client ids after.sent) ≡ true
            → is_in x after.submitted_trade_ids ≡ true)
        × AllDifferent after.submitted_trade_ids
  unfolding load_bridge
  submitted_once ids feeds d h =
      let once = run_loop-IsOnce ids feeds (load_bridge (some ids)) h (d, (tt, λ x k. k)) in
      (once.1.0, once.1.1, once.0)
