-- ===== src/Freqtrade/Blocked.antt =====
-- A trade that raises before it is submitted, in the middle of the new trades.
use piso_chain.Base.{ℕ, ◌≡◌, refl, inl, inr, Option-cases, none, some, List, [], ◌∷◌, ◌++◌}
use piso_chain.Freqtrade.{
  Library, Trade, Feed, Client, Bridge, ping, get_closed_trades, new_trades, submit_next, counted,
  submit_trades, prepared, profit_bps_of, date_of, poll_and_submit,
}

module _ (library : Library) (client : Client) where
  prepared-none :
      (t : Trade library) → date_of library t.close_date ≡ none → prepared library client t ≡ none
  unfolding prepared
  prepared-none t e = elim (Option-cases (profit_bps_of library t.profit_ratio)) [
    | inl e' ↦ rw e' refl
    | inr (bps, e') ↦ rw e' (elim (Option-cases (date_of library t.open_date)) [
      | inl e'' ↦ rw e'' refl
      | inr (open_ts, e'') ↦ rw (e'', e) refl
    ])
  ]

  -- The trades from one that raises on do not change what the loop leaves behind, and its count is lost.
  submit_trades_stops :
      (before later : List (Trade library)) (t : Trade library) (n : ℕ) (bridge : Bridge)
      → prepared library client t ≡ none
      → submit_trades library client (before ++ t ∷ later) n bridge
        ≡ ((submit_trades library client before n bridge).0, none)
  unfolding submit_trades submit_next
  submit_trades_stops [] later t n bridge e = rw e refl
  submit_trades_stops (b ∷ before) later t n bridge e =
      let r = submit_next library client b bridge in
      elim (Option-cases r.1) [
        | inl stop ↦ rw stop refl
        | inr (c, go) ↦ rw go (submit_trades_stops before later t (counted (some c) n) r.0 e)
      ]

  -- A closed trade whose close date is missing or does not parse ends every poll on which it is new: the
  -- poll raises, and leaves the bridge as the trades before it do, so that no trade that comes after it
  -- in the answer is ever submitted, whatever the chain would answer.
  pub poll_blocked :
      (feed : Feed library) (bridge : Bridge) (before later : List (Trade library))
      (t : Trade library)
      → feed.ping_status ≡ some 200
      → new_trades library bridge.submitted_trade_ids (get_closed_trades library feed.trades)
        ≡ before ++ t ∷ later
      → date_of library t.close_date ≡ none
      → poll_and_submit library client feed bridge
        ≡ ((submit_trades library client before 0 bridge).0, none)
  unfolding poll_and_submit ping
  poll_blocked feed bridge before later t online new e =
      rw (online, new) (submit_trades_stops before later t 0 bridge (prepared-none t e))
