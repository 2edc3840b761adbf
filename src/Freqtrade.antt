-- ===== src/Freqtrade.antt =====
-- bridge/freqtrade_bridge.py. The two services are parameters: what freqtrade answers to a poll, and what
-- the chain answers to a submission after those before it. A state file that is written opens.
pub mod Loop
pub mod Settled
pub mod Polls
pub mod Complete
pub mod Blocked
mod Tests
use piso_chain.Base.{
  ℕ, zero, suc, ◌+◌, ◌-◌, Bool, true, false, not, Option, none, some, List, [], ◌∷◌, ◌++◌, length,
  take, replicate, Text, ◌==◌, if◌then◌else◌,
}
use piso_chain.Multisig.{◌>>=◌}
use piso_chain.Int.{ℤ, pos}
use piso_chain.Bytes.{Bytes}
use piso_chain.Text.{codes, lower}
use piso_chain.Text.Numbers.{int_text, to_digits}

-- `int(round(r * 10_000))` on the program's floating-point ratios, `none` where it raises; the ratio 0.0;
-- the whole seconds of an ISO date in UTC, `none` where the date does not parse; SHA-256 of a text
pub record Library : Type 1 where
  pub Ratio : Type 0
  pub zero_ratio : Ratio
  pub to_bps : Ratio → Option ℤ
  pub timestamp : Text → Option ℤ
  pub sha256 : Text → Bytes

-- `raw`
unfoldable pub proof_text : ℕ → Text → ℤ → ℤ → Text → Text
proof_text trade_id strategy profit_bps close_timestamp worker_address =
    to_digits 10 trade_id
    ++ b'|'
      ∷ (lower worker_address
          ++ b'|' ∷ (strategy ++ b'|' ∷ (int_text profit_bps ++ b'|' ∷ int_text close_timestamp)))

-- What the oracle is sent.
pub record Submission : Type 0 where
  pub trade_id : ℕ
  pub strategy : Text
  pub pair : Text
  pub profit_bps : ℤ
  pub proof_bytes32 : Bytes
  pub open_ts : ℤ
  pub close_ts : ℤ

pub record Receipt : Type 0 where
  pub tx_hash : Text
  pub status : ℕ

-- The clients: is there an oracle, is the run dry, whose account is it; the receipt of a submission after
-- the ones before it, the last one first, `none` where the sending raises.
pub record Client : Type 0 where
  pub oracle : Bool
  pub dry_run : Bool
  pub address : Text
  pub receipt : List Submission → Submission → Option Receipt

-- `proof_bytes[:32].ljust(32, b"\x00")`
unfoldable pub bytes32 : Bytes → Bytes
bytes32 proof_bytes = let head = take 32 proof_bytes in head ++ replicate (32 - length head) 0

-- The ids in the state file, and what the chain was sent, the last one first.
pub record Bridge : Type 0 where
  pub submitted_trade_ids : List ℕ
  pub sent : List Submission

-- `_load_state`, from the ids of the file, if there is one
unfoldable pub load_bridge : Option (List ℕ) → Bridge
load_bridge none = record { submitted_trade_ids = []; sent = [] }
load_bridge (some ids) = record { submitted_trade_ids = ids; sent = [] }

-- `x in items`
unfoldable pub is_in : ℕ → List ℕ → Bool
is_in x [] = false
is_in x (y ∷ items) = if y == x then true else is_in x items

unfoldable pub mark_submitted : ℕ → Bridge → Bridge
mark_submitted trade_id bridge = record bridge {
  submitted_trade_ids = bridge.submitted_trade_ids ++ trade_id ∷ [];
}

abbrev pub hash_of_receipt : Option Receipt → Option Text
hash_of_receipt none = none
hash_of_receipt (some receipt) = some receipt.tx_hash

-- the transaction hash, or none, and what the chain was sent
unfoldable pub submit_trade_proof :
    Client → Submission → List Submission → List Submission × Option Text
submit_trade_proof client submission sent =
    if not client.oracle
    then (sent, none)
    else if client.dry_run
    then (sent, some (codes "0x" ++ replicate 64 b'0'))
    else (submission ∷ sent, hash_of_receipt (client.receipt sent submission))

-- the rest of the body: is the trade counted?
unfoldable pub marked : ℕ → Bridge → Option Text → Bridge × Bool
marked trade_id bridge none = (bridge, false)
marked trade_id bridge (some tx_hash) = (mark_submitted trade_id bridge, true)

unfoldable pub submit_one : Client → Submission → Bridge → Bridge × Bool
submit_one client submission bridge =
    let r = submit_trade_proof client submission bridge.sent in
    marked submission.trade_id (record bridge { sent = r.0 }) r.1

abbrev pub attempted : Client → Bridge → Option Submission → Bridge × Option Bool
attempted client bridge none = (bridge, none)
attempted client bridge (some submission) =
    let r = submit_one client submission bridge in (r.0, some r.1)

abbrev pub counted : Option Bool → ℕ → ℕ
counted none submitted = submitted
counted (some Bool.false) submitted = submitted
counted (some Bool.true) submitted = suc submitted

-- what the loop gives: what the later rounds give, or its end where the round raised
abbrev pub unless_raised : Option Bool → Bridge → Bridge × Option ℕ → Bridge × Option ℕ
unless_raised none bridge rest = (bridge, none)
unless_raised (some c) bridge rest = rest

unfoldable pub ping : Option ℕ → Bool
ping none = false
ping (some status_code) = status_code == 200

-- `not t.get("is_open", True)`, where the key may be missing, or null
abbrev pub is_closed : Option (Option Bool) → Bool
is_closed none = false
is_closed (some none) = true
is_closed (some (some is_open)) = not is_open

abbrev or_text : Text → Option Text → Text
or_text default none = default
or_text default (some t) = t

module _ (library : Library) where
  -- A trade of freqtrade's REST API: the keys that a trade may lack are options. For a ratio and the dates
  -- they are `none` also for a null, which the code treats alike; `is_open` tells the two apart; a
  -- strategy and a pair are texts where they are there.
  pub record Trade : Type 0 where
    pub trade_id : ℕ
    pub strategy : Option Text
    pub pair : Option Text
    pub profit_ratio : Option library.Ratio
    pub open_date : Option Text
    pub close_date : Option Text
    pub is_open : Option (Option Bool)

  -- the answers to a poll: the status of the ping, and the trades, `none` where the request raises
  pub record Feed : Type 0 where
    pub ping_status : Option ℕ
    pub trades : Option (List Trade)

  unfoldable pub compute_trade_proof : ℕ → Text → ℤ → ℤ → Text → Bytes
  compute_trade_proof trade_id strategy profit_bps close_timestamp worker_address =
      library.sha256 (proof_text trade_id strategy profit_bps close_timestamp worker_address)

  unfoldable pub closed_only : List Trade → List Trade
  closed_only [] = []
  closed_only (t ∷ trades) =
      let rest = closed_only trades in if is_closed t.is_open then t ∷ rest else rest

  unfoldable pub get_closed_trades : Option (List Trade) → List Trade
  get_closed_trades none = []
  get_closed_trades (some trades) = closed_only trades

  -- `[t for t in closed_trades if not self._already_submitted(t["trade_id"])]`
  unfoldable pub new_trades : List ℕ → List Trade → List Trade
  new_trades submitted_trade_ids [] = []
  new_trades submitted_trade_ids (t ∷ trades) =
      let rest = new_trades submitted_trade_ids trades in
      if is_in t.trade_id submitted_trade_ids then rest else t ∷ rest

  -- `profit_ratio_to_bps`, of the ratio or of 0.0
  unfoldable pub profit_bps_of : Option library.Ratio → Option ℤ
  profit_bps_of none = library.to_bps library.zero_ratio
  profit_bps_of (some profit_ratio) = library.to_bps profit_ratio

  -- the seconds of a date: a KeyError, a TypeError or a ValueError is `none`
  unfoldable pub date_of : Option Text → Option ℤ
  date_of none = none
  date_of (some date) = library.timestamp date

  -- the body of the loop, up to the submission; `none` where it raises
  unfoldable pub prepared : Client → Trade → Option Submission
  prepared client trade = do
    let strategy = or_text (codes "PISOStrategy") trade.strategy
    let pair = or_text (codes "BTC/USDT") trade.pair
    profit_bps ← profit_bps_of trade.profit_ratio
    open_ts ← date_of trade.open_date
    close_ts ← date_of trade.close_date
    let proof = compute_trade_proof trade.trade_id strategy profit_bps close_ts client.address
    some (record {
      trade_id = trade.trade_id;
      strategy = strategy;
      pair = pair;
      profit_bps = profit_bps;
      proof_bytes32 = bytes32 proof;
      open_ts = open_ts;
      close_ts = close_ts;
    })

  -- the body of the loop for a trade; `none` where it raises
  unfoldable pub submit_next : Client → Trade → Bridge → Bridge × Option Bool
  submit_next client trade bridge = attempted client bridge (prepared client trade)

  -- `for trade in new_trades`; `none` where the loop raises
  unfoldable pub submit_trades : Client → List Trade → ℕ → Bridge → Bridge × Option ℕ
  submit_trades client [] submitted bridge = (bridge, some submitted)
  submit_trades client (trade ∷ trades) submitted bridge =
      let r = submit_next client trade bridge in
      unless_raised r.1 r.0 (submit_trades client trades (counted r.1 submitted) r.0)

  -- Without new trades the loop has no round.
  unfoldable pub poll_and_submit : Client → Feed → Bridge → Bridge × Option ℕ
  poll_and_submit client feed bridge =
      if not (ping feed.ping_status)
      then (bridge, some 0)
      else submit_trades client
          (new_trades bridge.submitted_trade_ids (get_closed_trades feed.trades)) 0 bridge

  -- `run_loop` over the answers to its polls, until it is interrupted; what a poll raises is logged
  unfoldable pub run_loop : Client → List Feed → Bridge → Bridge
  run_loop client [] bridge = bridge
  run_loop client (feed ∷ feeds) bridge =
      run_loop client feeds (poll_and_submit client feed bridge).0
