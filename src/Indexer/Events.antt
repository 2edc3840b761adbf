-- ===== src/Indexer/Events.antt =====
-- The table of events over every sequence of calls, and its statistics.
use piso_chain.Base.{
  ℕ, suc, ◌+◌, ◌<◌, ◌≤◌, ◌≡◌, refl, ap, ◌∙◌, true, false, Bool-cases, inl, inr, List, [], ◌∷◌, Text,
  text_eq, text_eq_iff, text_key, arith, if◌then◌else◌,
}
use piso_chain.Dict.{get_default}
use piso_chain.Dict.Laws.{get_default-insert}
use piso_chain.Json.{Json}
use piso_chain.Indexer.{
  Event, IndexerDb, create_tables, has_hash, insert_event, update_last_block, get_recent_events,
  count_contract, by_contract, get_event_stats,
}

-- A call that writes to the database.
pub data Step (db : IndexerDb) : IndexerDb → Type 0 where
  inserted :
      (contract_name event_name : Text) (block_number : ℕ) (tx_hash : Text) (payload : Json)
      (now : ℕ)
      → Step db (insert_event contract_name event_name block_number tx_hash payload now db)
  updated : (block_number : ℕ) → Step db (update_last_block block_number db)

pub data Reach : IndexerDb → Type 0 where
  created : Reach create_tables
  next : {before after : IndexerDb} → Reach before → Step before after → Reach after

-- From the last row on the ids fall, below the given one, and no hash stands twice.
abbrev pub IsTable : ℕ → List Event → Type 0
IsTable bound [] = Unit
IsTable bound (e ∷ events) =
    (e.id < bound) × (has_hash e.tx_hash events ≡ false) × IsTable e.id events

-- A larger bound does as well.
IsTable-larger :
    (bound larger : ℕ) (events : List Event)
    → bound ≤ larger
    → IsTable bound events
    → IsTable larger events
IsTable-larger bound larger [] h t = tt
IsTable-larger bound larger (e ∷ events) h t = (omega (arith, h, t.0), t.1, t.2)

abbrev IsIndexed : IndexerDb → Type 0
IsIndexed db = IsTable (suc db.sequence) db.events

insert_event-IsIndexed :
    (contract_name event_name : Text) (block_number : ℕ) (tx_hash : Text) (payload : Json) (now : ℕ)
    (db : IndexerDb)
    → IsIndexed db
    → IsIndexed (insert_event contract_name event_name block_number tx_hash payload now db)
unfolding insert_event
insert_event-IsIndexed contract_name event_name block_number tx_hash payload now db table =
    elim (Bool-cases (has_hash tx_hash db.events)) [
      | inl old ↦
          rw old
            (IsTable-larger (suc db.sequence) (suc (db.sequence + 1)) db.events (omega arith) table)
      | inr new ↦ rw new (
        omega arith,
        new,
        IsTable-larger (suc db.sequence) (db.sequence + 1) db.events (omega arith) table,
      )
    ]

updated-IsIndexed :
    (block_number : ℕ) (db : IndexerDb)
    → IsIndexed db
    → IsIndexed (update_last_block block_number db)
unfolding update_last_block
updated-IsIndexed block_number db h = h

Reach-IsIndexed : {db : IndexerDb} → Reach db → IsIndexed db
Reach-IsIndexed created = unfold create_tables in tt
Reach-IsIndexed
      (next {before = db} r (inserted contract_name event_name block_number tx_hash payload now)) =
    insert_event-IsIndexed contract_name event_name block_number tx_hash payload now db
      (Reach-IsIndexed r)
Reach-IsIndexed (next {before = db} r (updated block_number)) =
    updated-IsIndexed block_number db (Reach-IsIndexed r)

-- the events of a contract
abbrev pub count_events : Text → List Event → ℕ
count_events contract_name [] = 0
count_events contract_name (e ∷ events) =
    let rest = count_events contract_name events in
    if text_eq e.contract_name contract_name then rest + 1 else rest

by_contract-count_events :
    (contract_name : Text) (events : List Event)
    → get_default 0 contract_name (by_contract events) ≡ count_events contract_name events
unfolding by_contract count_contract
by_contract-count_events contract_name [] = unfold get_default in refl
by_contract-count_events contract_name (e ∷ events) =
    let counts = by_contract events in
    get_default-insert 0 e.contract_name contract_name (get_default 0 e.contract_name counts + 1)
      counts
    ∙ elim (Bool-cases (text_eq e.contract_name contract_name)) [
      | inl same ↦
          let eq : e.contract_name ≡ contract_name =
            (text_eq_iff e.contract_name contract_name).0 same in
          rw same (
            ap (λ n. n + 1)
              (ap (λ c. get_default 0 c counts) eq ∙ by_contract-count_events contract_name events))
      | inr other ↦ rw other (by_contract-count_events contract_name events)
    ]

-- After any inserts and updates from a new database on: no event has an id above the last one given
-- out, and the ids fall from the last row on, so that the recent ones come first; no transaction hash
-- stands twice; and the statistics count the events of each contract.
pub indexed_once :
    {db : IndexerDb}
    → Reach db
    → IsTable (suc db.sequence) db.events
      × ((contract_name : Text)
          → get_default 0 contract_name (get_event_stats db).events_by_contract
            ≡ count_events contract_name db.events)
unfolding get_event_stats
indexed_once {db} r =
    (Reach-IsIndexed r, λ contract_name. by_contract-count_events contract_name db.events)

-- An event that is inserted is the first of the recent ones, before those of a limit less; but where its
-- transaction has an event already, only an id is spent, even if the two are different events.
pub insert_event_result :
    (contract_name event_name : Text) (block_number : ℕ) (tx_hash : Text) (payload : Json) (now : ℕ)
    (db : IndexerDb)
    → let after = insert_event contract_name event_name block_number tx_hash payload now db in
      (has_hash tx_hash db.events ≡ true → after ≡ record db { sequence = db.sequence + 1 })
      × (has_hash tx_hash db.events ≡ false
          → (limit : ℕ)
          → get_recent_events (suc limit) after
            ≡ record {
              id = db.sequence + 1;
              contract_name = contract_name;
              event_name = event_name;
              block_number = block_number;
              tx_hash = tx_hash;
              payload = payload;
              timestamp = now;
            }
              ∷ get_recent_events limit db)
unfolding insert_event get_recent_events
insert_event_result contract_name event_name block_number tx_hash payload now db =
    (λ old. rw old refl, λ new limit. rw new refl)
