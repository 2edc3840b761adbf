-- ===== src/Indexer/Scan.antt =====
-- What one cycle of the indexer does.
use piso_chain.Base.{
  ℕ, ◌+◌, ◌≡◌, ◌≢◌, refl, ap, ◌∙◌, true, Option, Bool-cases, inl, inr, none, some, List, [], ◌∷◌,
  length, Text, text_eq, text_eq_iff, text_key, arith,
}
use piso_chain.Int.{ℤ, pos}
use piso_chain.Text.{codes}
use piso_chain.Text.Numbers.{to_digits, parse_int-to_digits}
use piso_chain.Dict.Laws.{lookup-insert}
use piso_chain.Dict.{lookup}
use piso_chain.Json.{Json}
use piso_chain.Indexer.{
  Event, IndexerDb, Simulated, create_tables, has_hash, insert_event, insert_events,
  update_last_block, get_last_block, read_block, simulated_events, height_of, simulate, scan_cycle,
}
use piso_chain.Indexer.Events.{Reach, created, next, inserted, updated, insert_event_result}

get_last_block-update_last_block :
    (block_number : ℕ) (db : IndexerDb)
    → get_last_block (update_last_block block_number db) ≡ some (pos block_number)
unfolding get_last_block update_last_block read_block text_eq
get_last_block-update_last_block block_number db =
    rw
      (lookup-insert (codes "last_scanned_block") (codes "last_scanned_block")
        (to_digits 10 block_number) db.sync_status)
      (parse_int-to_digits 10 block_number (omega arith) (omega arith))

-- All hashes are held.
abbrev AllHeld : List Event → List Simulated → Type 0
AllHeld events [] = Unit
AllHeld events ((contract_name, event_name, tx_hash, payload) ∷ rest) =
    (has_hash tx_hash events ≡ true) × AllHeld events rest

insert_events_held :
    (block_number : ℕ) (clock : ℕ → ℕ) (events : List Simulated) (db : IndexerDb)
    → AllHeld db.events events
    → (insert_events block_number clock events db).events ≡ db.events
unfolding insert_events
insert_events_held block_number clock [] db h = refl
insert_events_held block_number clock ((contract_name, event_name, tx_hash, payload) ∷ rest) db h =
    let now = clock (length rest) in
    ap (λ d. (insert_events block_number clock rest d).events)
      ((insert_event_result contract_name event_name block_number tx_hash payload now db).0 h.0)
    ∙ insert_events_held block_number clock rest (record db { sequence = db.sequence + 1 }) h.1

module _ (contract_name event_name : Text) (block_number : ℕ) (tx_hash : Text) (payload : Json)
    (now : ℕ) (db : IndexerDb) where
  insert_event-holds :
      has_hash tx_hash
        (insert_event contract_name event_name block_number tx_hash payload now db).events
      ≡ true
  unfolding insert_event
  insert_event-holds = elim (Bool-cases (has_hash tx_hash db.events)) [
    | inl old ↦ rw old old
    | inr new ↦ rw new (unfold has_hash in ground (arith, (text_eq_iff tx_hash tx_hash).1 refl))
  ]

  insert_event-keeps :
      (h : Text)
      → has_hash h db.events ≡ true
      → has_hash h
          (insert_event contract_name event_name block_number tx_hash payload now db).events
        ≡ true
  unfolding insert_event
  insert_event-keeps h held = elim (Bool-cases (has_hash tx_hash db.events)) [
    | inl old ↦ rw old held
    | inr new ↦ rw new (unfold has_hash in ground arith)
  ]

insert_events-keeps :
    (block_number : ℕ) (clock : ℕ → ℕ) (events : List Simulated) (db : IndexerDb) (h : Text)
    → has_hash h db.events ≡ true
    → has_hash h (insert_events block_number clock events db).events ≡ true
unfolding insert_events
insert_events-keeps block_number clock [] db h held = held
insert_events-keeps block_number clock ((contract_name, event_name, tx_hash, payload) ∷ rest) db h
      held =
    insert_events-keeps block_number clock rest
      (insert_event contract_name event_name block_number tx_hash payload (clock (length rest)) db)
      h
      (insert_event-keeps contract_name event_name block_number tx_hash payload
        (clock (length rest)) db h held)

insert_events-AllHeld :
    (block_number : ℕ) (clock : ℕ → ℕ) (events : List Simulated) (db : IndexerDb)
    → AllHeld (insert_events block_number clock events db).events events
unfolding insert_events
insert_events-AllHeld block_number clock [] db = tt
insert_events-AllHeld block_number clock ((contract_name, event_name, tx_hash, payload) ∷ rest) db =
    let now = clock (length rest) in
    let after = insert_event contract_name event_name block_number tx_hash payload now db in
    (
      insert_events-keeps block_number clock rest after tx_hash
          (insert_event-holds contract_name event_name block_number tx_hash payload now db),
      insert_events-AllHeld block_number clock rest after,
    )

again :
    (clock : ℕ → ℕ) (db : IndexerDb)
    → AllHeld db.events (simulated_events 124900)
    → (update_last_block 124900 (insert_events 124900 clock (simulated_events 124900) db)).events
      ≡ db.events
unfolding update_last_block
again clock db held = insert_events_held 124900 clock (simulated_events 124900) db held

insert_event-last_block :
    (contract_name event_name : Text) (block_number : ℕ) (tx_hash : Text) (payload : Json) (now : ℕ)
    (db : IndexerDb)
    → get_last_block (insert_event contract_name event_name block_number tx_hash payload now db)
      ≡ get_last_block db
unfolding insert_event get_last_block
insert_event-last_block contract_name event_name block_number tx_hash payload now db =
    elim (Bool-cases (has_hash tx_hash db.events)) [ inl old ↦ rw old refl | inr new ↦ rw new refl ]

-- The last block of a database that was only written by these calls can be read.
Reach-last_block : {db : IndexerDb} → Reach db → (b : ℤ) × (get_last_block db ≡ some b)
Reach-last_block created = (pos 0, unfold get_last_block create_tables read_block lookup in refl)
Reach-last_block
      (next {before = db} r (inserted contract_name event_name block_number tx_hash payload now)) =
    let (b, e) = Reach-last_block r in
    (b, insert_event-last_block contract_name event_name block_number tx_hash payload now db ∙ e)
Reach-last_block (next {before = db} r (updated block_number)) =
    (pos block_number, get_last_block-update_last_block block_number db)

-- the database after a cycle
abbrev scanned : Option ℕ → (ℕ → ℕ) → IndexerDb → IndexerDb
scanned height clock db = update_last_block (height_of height) (simulate height clock db)

scan_cycle-eq :
    (height : Option ℕ) (clock : ℕ → ℕ) (db : IndexerDb) (b : ℤ)
    → get_last_block db ≡ some b
    → scan_cycle height clock db ≡ some (scanned height clock db)
unfolding scan_cycle
scan_cycle-eq height clock db b e = rw e refl

connected_events :
    (height : Option ℕ) (clock : ℕ → ℕ) (db : IndexerDb)
    → height ≢ none
    → (scanned height clock db).events ≡ db.events
unfolding update_last_block
connected_events none clock db answers = absurd (answers refl)
connected_events (some block_number) clock db answers = refl

twice-events :
    (height : Option ℕ) (clock later : ℕ → ℕ) (db : IndexerDb)
    → (scanned height later (scanned height clock db)).events ≡ (scanned height clock db).events
unfolding update_last_block
twice-events (some block_number) clock later db = refl
twice-events none clock later db =
    let inserted_once = insert_events 124900 clock (simulated_events 124900) db in
    again later (update_last_block 124900 inserted_once)
      (insert_events-AllHeld 124900 clock (simulated_events 124900) db)

-- On a database that these calls have written a cycle never raises, and after it the last block reads
-- as the height of the node, or 124900 without a node. A cycle on a node that answers adds no event,
-- whatever happened on the chain; and a second cycle at the same height, or again without a node, adds
-- none and does not raise.
pub scan_cycle_result :
    {db : IndexerDb}
    → Reach db
    → (height : Option ℕ) (clock later : ℕ → ℕ)
    → (after twice : IndexerDb) × (scan_cycle height clock db ≡ some after)
      × (get_last_block after ≡ some (pos (height_of height)))
      × (height ≢ none → after.events ≡ db.events)
      × (scan_cycle height later after ≡ some twice)
      × (twice.events ≡ after.events)
scan_cycle_result {db} r height clock later =
    let (b, e) = Reach-last_block r in
    let after = scanned height clock db in
    let read = get_last_block-update_last_block (height_of height) (simulate height clock db) in
    (
      after,
      scanned height later after,
      scan_cycle-eq height clock db b e,
      read,
      λ answers. connected_events height clock db answers,
      scan_cycle-eq height later after (pos (height_of height)) read,
      twice-events height clock later db,
    )
