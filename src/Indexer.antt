-- ===== src/Indexer.antt =====
-- indexer/indexer.py. The two tables of SQLite are lists of rows, with the constraints that the code
-- declares; the clock and the block number of the node are arguments.
pub mod Events
pub mod Scan
mod Tests
use piso_chain.Base.{
  ℕ, zero, suc, ◌+◌, ◌-◌, Bool, true, false, Option, none, some, List, [], ◌∷◌, ◌++◌, length, map,
  max, take, Text, text_eq, text_key, ◌==◌, if◌then◌else◌,
}
use mathlib.Core.List.{reverse}
use piso_chain.Int.{ℤ, pos}
use piso_chain.Text.{codes}
use piso_chain.Text.Numbers.{to_digits, parse_int}
use piso_chain.Dict.{Dict, lookup, insert, get_default}
use piso_chain.Json.{Json, Items, Members, fields}
use piso_chain.Multisig.{◌>>=◌}

-- a row of `events`; the payload is the object that `json.dumps` writes
pub record Event : Type 0 where
  pub id : ℕ
  pub contract_name : Text
  pub event_name : Text
  pub block_number : ℕ
  pub tx_hash : Text
  pub payload : Json
  pub timestamp : ℕ

-- The rows of `events`, the last one first, the last id that was given out, and `sync_status`.
pub record IndexerDb : Type 0 where
  pub events : List Event
  pub sequence : ℕ
  pub sync_status : Dict Text Text

-- `create_tables`, in a new database
unfoldable pub create_tables : IndexerDb
create_tables = record { events = []; sequence = 0; sync_status = [] }

-- the row with a hash, which the column's UNIQUE looks for
unfoldable pub has_hash : Text → List Event → Bool
has_hash tx_hash [] = false
has_hash tx_hash (e ∷ events) = if text_eq e.tx_hash tx_hash then true else has_hash tx_hash events

-- `INSERT OR IGNORE`; AUTOINCREMENT spends an id also on the row that is ignored.
unfoldable pub insert_event : Text → Text → ℕ → Text → Json → ℕ → IndexerDb → IndexerDb
insert_event contract_name event_name block_number tx_hash payload now db =
    if has_hash tx_hash db.events then record db { sequence = db.sequence + 1 } else record db {
      events =
          record {
            id = db.sequence + 1;
            contract_name = contract_name;
            event_name = event_name;
            block_number = block_number;
            tx_hash = tx_hash;
            payload = payload;
            timestamp = now;
          }
          ∷ db.events;
      sequence = db.sequence + 1;
    }

abbrev last_scanned_block : Text
last_scanned_block = codes "last_scanned_block"

-- `INSERT OR REPLACE`
unfoldable pub update_last_block : ℕ → IndexerDb → IndexerDb
update_last_block block_number db = record db {
  sync_status = insert last_scanned_block (to_digits 10 block_number) db.sync_status;
}

-- `int(row[0]) if row else 0`; the inner `none` is a ValueError
unfoldable pub read_block : Option Text → Option ℤ
read_block none = some (pos 0)
read_block (some value) = parse_int 10 value

unfoldable pub get_last_block : IndexerDb → Option ℤ
get_last_block db = read_block (lookup last_scanned_block db.sync_status)

-- `ORDER BY id DESC LIMIT limit`
unfoldable pub get_recent_events : ℕ → IndexerDb → List Event
get_recent_events limit db = take limit db.events

-- one row in `GROUP BY contract_name`
unfoldable pub count_contract : Text → Dict Text ℕ → Dict Text ℕ
count_contract contract_name counts =
    insert contract_name (get_default 0 contract_name counts + 1) counts

unfoldable pub by_contract : List Event → Dict Text ℕ
by_contract [] = []
by_contract (e ∷ events) = let rest = by_contract events in count_contract e.contract_name rest

pub record EventStats : Type 0 where
  pub total_events_indexed : ℕ
  pub events_by_contract : Dict Text ℕ
  pub last_block : Option ℤ

unfoldable pub get_event_stats : IndexerDb → EventStats
get_event_stats db = record {
  total_events_indexed = length db.events;
  events_by_contract = by_contract db.events;
  last_block = get_last_block db;
}

-- an event of the simulation: contract, event, hash, payload
abbrev pub Simulated : Type 0
Simulated = Text × Text × Text × Json

unfoldable pub simulated_events : ℕ → List Simulated
simulated_events current_block =
    let height = to_digits 10 current_block in
    (
      codes "PISOValidatorSet",
      codes "ValidatorRegistered",
      codes "0xsim_reg_" ++ height,
      Json.object (
          fields (
            (codes "validator", codes "0x1821F246a27287a2187E1D634B8883030fA14731")
            ∷ (codes "stakedAmount", codes "100000 PISO")
            ∷ [])),
    )
    ∷ (
      codes "PISOFaucet",
      codes "TokensDispensed",
      codes "0xsim_faucet_" ++ height,
      Json.object (
          fields (
            (codes "recipient", codes "0x70997970C51812dc3A010C7d01b50e0d17dc79C8")
            ∷ (codes "amount", codes "1.0 PISO")
            ∷ [])),
    )
    ∷ (
      codes "PISOQuantumSecurity",
      codes "QuantumKeyRegistered",
      codes "0xsim_pqc_" ++ height,
      Json.object (
          fields (
            (codes "algorithm", codes "NIST FIPS 204 ML-DSA")
            ∷ (codes "owner", codes "0x1821F...")
            ∷ [])),
    )
    ∷ []

-- The loop over the simulated events; `clock n` is the time with `n` more of them to come.
unfoldable pub insert_events : ℕ → (ℕ → ℕ) → List Simulated → IndexerDb → IndexerDb
insert_events current_block clock [] db = db
insert_events current_block clock ((contract_name, event_name, tx_hash, payload) ∷ rest) db =
    insert_events current_block clock rest
      (insert_event contract_name event_name current_block tx_hash payload (clock (length rest)) db)

-- `current_block`: the block number of the node, if there is a node
abbrev pub height_of : Option ℕ → ℕ
height_of none = 124900
height_of (some block_number) = block_number

abbrev pub simulate : Option ℕ → (ℕ → ℕ) → IndexerDb → IndexerDb
simulate none clock db = insert_events 124900 clock (simulated_events 124900) db
simulate (some block_number) clock db = db

-- `none` where the ValueError of `get_last_block` leaves it; the block that this reads is not used.
unfoldable pub scan_cycle : Option ℕ → (ℕ → ℕ) → IndexerDb → Option IndexerDb
scan_cycle node clock db = do
  last_block ← get_last_block db
  some (update_last_block (height_of node) (simulate node clock db))

abbrev shown_event : Event → Json
shown_event e = Json.object (
    Members.member (codes "contract") (Json.text e.contract_name) (
      Members.member (codes "event") (Json.text e.event_name) (
        Members.member (codes "blockNumber") (Json.integer (pos e.block_number)) (
          Members.member (codes "txHash") (Json.text e.tx_hash) (
            Members.member (codes "payload") e.payload (
              Members.member (codes "timestamp") (Json.integer (pos e.timestamp))
                Members.no_members))))))

unfoldable pub events_json : List Event → Items
events_json [] = Items.no_items
events_json (e ∷ events) = Items.item (shown_event e) (events_json events)

abbrev counts_json : Dict Text ℕ → Members
counts_json [] = Members.no_members
counts_json ((contract_name, count) ∷ counts) =
    Members.member contract_name (Json.integer (pos count)) (counts_json counts)

abbrev success : Text → Json → ℕ × Json
success name value = (
  200,
  Json.object (
      Members.member (codes "status") (Json.text (codes "success"))
        (Members.member name value Members.no_members)),
)

unfoldable pub stats_json : EventStats → Option Json
stats_json stats = do
  last_block ← stats.last_block
  some (
      Json.object (
        Members.member (codes "totalEventsIndexed") (Json.integer (pos stats.total_events_indexed))
          (Members.member (codes "eventsByContract")
            (Json.object (counts_json stats.events_by_contract))
            (Members.member (codes "lastBlock") (Json.integer last_block) Members.no_members))))

-- the status and the body for a path; `none` where the database raises
unfoldable pub do_get : IndexerDb → Text → Option (ℕ × Json)
do_get db path =
    if text_eq path (codes "/events")
    then some (success (codes "events") (Json.array (events_json (get_recent_events 50 db))))
    else if text_eq path (codes "/stats")
    then (do stats ← stats_json (get_event_stats db); some (success (codes "stats") stats))
    else if text_eq path (codes "/health")
    then some (
      200,
      Json.object (
          fields (
            (codes "status", codes "OK")
            ∷ (codes "service", codes "PISO Chain Event Indexer")
            ∷ [])),
    )
    else some (
      404,
      Json.object (
          fields (
            (codes "error", codes "Endpoint not found. Available: /events, /stats, /health") ∷ [])),
    )
