-- ===== src/Freqtrade/Tests.antt =====
-- Polls with two closed trades, one of them without a close date in the second answer.
use piso_chain.Base.{
  ℕ, ◌≡◌, refl, true, false, Option, none, some, [], ◌∷◌, ◌++◌, length, take, Text,
}
use piso_chain.Int.{ℤ, pos, negsuc}
use piso_chain.Text.{codes, lower}
use piso_chain.Text.Numbers.{to_digits, digit_char}
use piso_chain.Freqtrade.{
  Library, Trade, Feed, Client, Bridge, proof_text, is_in, ping, closed_only, get_closed_trades,
  new_trades, mark_submitted, marked, submit_trade_proof, submit_one, submit_next, submit_trades,
  prepared, profit_bps_of, date_of, load_bridge, poll_and_submit, run_loop,
}
use piso_chain.Freqtrade.Loop.{AllDifferent, ids_of}
use piso_chain.Freqtrade.Settled.{settled, NeverAgain}
use piso_chain.Freqtrade.Polls.{submitted_once}
use piso_chain.Freqtrade.Complete.{Accepts, SentAll, poll_submits_all}
use piso_chain.Freqtrade.Blocked.{poll_blocked}

-- Ratios are basis points already, and a date is any text.
abbrev library : Library
library = record {
  Ratio = ℤ;
  zero_ratio = pos 0;
  to_bps = λ r. some r;
  timestamp = λ date. some (pos (length date));
  sha256 = λ t. take 4 t;
}

abbrev trade : ℕ → Option Text → Trade library
trade id close_date = record {
  trade_id = id;
  strategy = none;
  pair = some (codes "ETH/USDT");
  profit_ratio = some (negsuc 4);
  open_date = some (codes "2026-01-01");
  close_date = close_date;
  is_open = some (some false);
}

abbrev good : Trade library
good = trade 1 (some (codes "2026-01-02"))

abbrev client : Client
client = record {
  oracle = true;
  dry_run = false;
  address = codes "0xAB";
  receipt = λ sent s. some (record { tx_hash = codes "0x1"; status = 0 });
}

abbrev feed : Feed library
feed = record {
  ping_status = some 200;
  trades = some (good ∷ trade 2 (some (codes "2026-01-03")) ∷ []);
}

abbrev bad_feed : Feed library
bad_feed = record {
  ping_status = some 200;
  trades = some (good ∷ trade 2 none ∷ trade 3 (some (codes "2026-01-03")) ∷ []);
}

abbrev start : Bridge
start = load_bridge (some [])

text_of_proof : proof_text 7 (codes "S") (negsuc 4) (pos 9) (codes "0xAB") ≡ codes "7|0xab|S|-5|9"
unfolding proof_text lower to_digits digit_char
text_of_proof = refl

-- The third trade waits behind the second one.
blocked_ids :
    (run_loop library client (bad_feed ∷ bad_feed ∷ []) start).submitted_trade_ids ≡ 1 ∷ []
unfolding run_loop poll_and_submit ping get_closed_trades closed_only new_trades is_in submit_trades
    submit_next submit_one submit_trade_proof marked mark_submitted prepared profit_bps_of date_of
    load_bridge
blocked_ids = refl

submitted_once_example :
    let after = run_loop library client (feed ∷ bad_feed ∷ []) (load_bridge (some (5 ∷ []))) in
    NeverAgain client (5 ∷ []) after.sent
    × ((x : ℕ)
        → is_in x (settled client (5 ∷ []) after.sent) ≡ true
        → is_in x after.submitted_trade_ids ≡ true)
    × AllDifferent after.submitted_trade_ids
unfolding get_closed_trades closed_only is_in
submitted_once_example =
    submitted_once library client (5 ∷ []) (feed ∷ bad_feed ∷ []) (refl, tt)
      ((refl, (refl, tt)), ((refl, (refl, (refl, tt))), tt))

accepting : Accepts client
accepting = (refl, λ sent s. (record { tx_hash = codes "0x1"; status = 0 }, refl))

poll_submits_all_example :
    let new =
      new_trades library start.submitted_trade_ids (get_closed_trades library feed.trades) in
    let (after, count) = poll_and_submit library client feed start in
    (client.dry_run ≡ false → SentAll library client (accepting) start.sent new after.sent)
    × (client.dry_run ≡ true → after.sent ≡ start.sent)
    × (count ≡ some (length new))
    × (after.submitted_trade_ids ≡ start.submitted_trade_ids ++ ids_of library new)
    × (poll_and_submit library client feed after ≡ (after, some 0))
unfolding get_closed_trades closed_only prepared profit_bps_of date_of
poll_submits_all_example =
    poll_submits_all library client accepting feed start refl ((_, refl), ((_, refl), tt))

poll_blocked_example :
    poll_and_submit library client bad_feed start
    ≡ ((submit_trades library client (good ∷ []) 0 start).0, none)
unfolding get_closed_trades closed_only new_trades is_in load_bridge date_of
poll_blocked_example =
    poll_blocked library client bad_feed start (good ∷ [])
      (trade 3 (some (codes "2026-01-03")) ∷ []) (trade 2 none) refl refl refl
