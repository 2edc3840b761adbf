-- ===== src/Indexer/Tests.antt =====
-- A new database, with two events of one transaction and cycles of the indexer.
use piso_chain.Base.{ℕ, ◌+◌, ◌≡◌, ◌≢◌, refl, Option, none, some, length, Text, text_eq, text_key}
use piso_chain.Int.{pos}
use piso_chain.Text.{codes}
use piso_chain.Text.Numbers.{to_digits, digit_char}
use piso_chain.Dict.{get_default, lookup}
use piso_chain.Multisig.{◌>>=◌}
use piso_chain.Json.{Json, Members}
use piso_chain.Indexer.{
  IndexerDb, create_tables, has_hash, insert_event, insert_events, simulated_events,
  update_last_block, get_last_block, read_block, get_event_stats, scan_cycle,
}
use piso_chain.Indexer.Events.{
  Reach, Step, IsTable, count_events, indexed_once, insert_event_result,
}
use piso_chain.Indexer.Scan.{scan_cycle_result}

abbrev nothing : Json
nothing = Json.object Members.no_members

abbrev one : IndexerDb
one = insert_event (codes "Faucet") (codes "Dispensed") 5 (codes "0xa") nothing 9 create_tables

abbrev two : IndexerDb
two = insert_event (codes "Faucet") (codes "Refilled") 6 (codes "0xb") nothing 9 one

clock : ℕ → ℕ
clock n = n

-- The second event of a transaction is lost.
same_transaction :
    insert_event (codes "Vault") (codes "Paid") 5 (codes "0xa") nothing 9 one
    ≡ record one { sequence = one.sequence + 1 }
same_transaction =
    (insert_event_result (codes "Vault") (codes "Paid") 5 (codes "0xa") nothing 9 one).0
      (unfold insert_event create_tables has_hash text_eq in refl)

three_simulated : (scan_cycle none clock create_tables >>= λ db. some (length db.events)) ≡ some 3
unfolding scan_cycle lookup get_last_block read_block update_last_block insert_events insert_event
    simulated_events create_tables has_hash text_eq to_digits digit_char
three_simulated = refl

indexed_once_example :
    IsTable (ℕ.suc two.sequence) two.events
    × ((contract_name : Text)
        → get_default 0 contract_name (get_event_stats two).events_by_contract
          ≡ count_events contract_name two.events)
indexed_once_example = indexed_once (
    Reach.next
      (Reach.next Reach.created
        (Step.inserted (codes "Faucet") (codes "Dispensed") 5 (codes "0xa") nothing 9))
      (Step.inserted (codes "Faucet") (codes "Refilled") 6 (codes "0xb") nothing 9))

one-Reach : Reach one
one-Reach =
    Reach.next Reach.created
      (Step.inserted (codes "Faucet") (codes "Dispensed") 5 (codes "0xa") nothing 9)

scan_cycle_result_example :
    (after twice : IndexerDb) × (scan_cycle none clock one ≡ some after)
    × (get_last_block after ≡ some (pos 124900))
    × (◌≢◌ {A = Option ℕ} none none → after.events ≡ one.events)
    × (scan_cycle none clock after ≡ some twice)
    × (twice.events ≡ after.events)
scan_cycle_result_example = scan_cycle_result one-Reach none clock clock
