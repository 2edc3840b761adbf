-- ===== src/JsonRpc/Tests.antt =====
-- Requests as a wallet sends them, with a digest that is the text itself.
use piso_chain.Base.{◌≡◌, ◌≢◌, refl, some, ◌++◌, Text, text_eq, text_key}
use piso_chain.Int.{pos}
use piso_chain.Text.{codes, strip, lstrip}
use piso_chain.Text.Numbers.{parse_int, scan, digit_value}
use piso_chain.Dict.{lookup}
use piso_chain.Outcome.{Result, ok}
use piso_chain.Json.{Json, Items, Members, get_member}
use piso_chain.JsonRpc.{Method, chain_id_hex, response, methods, dispatch, do_post, parse_error}
use piso_chain.JsonRpc.Methods.{IsTransaction, dispatch-known}
use piso_chain.JsonRpc.Batch.{AllRequests, AllAnswered, do_post_batch}

abbrev sha256_hex : Text → Result Text Text
sha256_hex t = ok t

abbrev request : Text → Items → Members
request name items = Members.member (codes "id") (Json.integer (pos 7)) (
    Members.member (codes "method") (Json.text name)
      (Members.member (codes "params") (Json.array items) Members.no_members))

abbrev send : Members
send =
    request (codes "eth_sendRawTransaction") (Items.item (Json.text (codes "0xf8")) Items.no_items)

-- The answer of `eth_chainId` is another number than that of `net_version`.
chain_id_number : parse_int 16 chain_id_hex ≡ some (pos 2024265)
unfolding parse_int strip lstrip scan digit_value
chain_id_number = refl

dispatch-known_example :
    (Method.send_raw_transaction ≢ Method.send_raw_transaction
      → (value : Json) × (dispatch sha256_hex (Json.object send)
          ≡ some (response (Json.integer (pos 7)) (codes "result") value)))
    × ((t digest : Text)
        → Method.send_raw_transaction ≡ Method.send_raw_transaction
        → IsTransaction (Items.item (Json.text (codes "0xf8")) Items.no_items) t
        → sha256_hex t ≡ ok digest
        → dispatch sha256_hex (Json.object send)
          ≡ some
              (response (Json.integer (pos 7)) (codes "result") (Json.text (codes "0x" ++ digest))))
unfolding get_member text_eq
dispatch-known_example =
    dispatch-known sha256_hex send (codes "eth_sendRawTransaction") Method.send_raw_transaction
      (Items.item (Json.text (codes "0xf8")) Items.no_items) refl (unfold methods lookup in refl)
      refl

abbrev batch : Items
batch = Items.item (Json.object send) (Items.item (Json.object Members.no_members) Items.no_items)

abbrev with_null : Items
with_null = Items.item (Json.object send) (Items.item Json.null Items.no_items)

null_refused : do_post sha256_hex (some (Json.array with_null)) ≡ parse_error
null_refused = (do_post_batch sha256_hex with_null).1 (λ h. h.1.0)

do_post_batch_example :
    (AllRequests batch
      → (answers : Items) × (do_post sha256_hex (some (Json.array batch))
          ≡ record { status = 200; body = Json.array answers })
        × AllAnswered batch answers)
    × ((¬ AllRequests batch) → do_post sha256_hex (some (Json.array batch)) ≡ parse_error)
do_post_batch_example = do_post_batch sha256_hex batch
