-- ===== src/JsonRpc/Methods.antt =====
-- The handlers of the methods, on the parameters that a request may have.
use piso_chain.Base.{◌≡◌, ◌≢◌, refl, sym, some, ◌++◌, Text, text_key}
use piso_chain.Int.{pos}
use piso_chain.Text.{codes}
use piso_chain.Dict.{lookup}
use piso_chain.Outcome.{Result, ok}
use piso_chain.Json.{Json, Items, Members, get_member, is_true}
use piso_chain.JsonRpc.{
  Method, first_of, first_param, eth_send_raw_transaction, eth_get_transaction_by_hash,
  eth_get_transaction_receipt, methods, call, response, answer_of, dispatch_method, dispatch_named,
  dispatch,
}

-- What `eth_sendRawTransaction` hashes: the first parameter, if it is a text, or the default.
abbrev pub IsTransaction : Items → Text → Type 0
IsTransaction Items.no_items t = t ≡ codes "0x"
IsTransaction (Items.item value items) t = value ≡ Json.text t

module _ (sha256_hex : Text → Result Text Text) where
  call_array :
      (method : Method) (items : Items)
      → method ≢ Method.send_raw_transaction
      → (value : Json) × (call sha256_hex method (Json.array items) ≡ ok value)
  unfolding call eth_get_transaction_by_hash eth_get_transaction_receipt first_param first_of
      is_true
  call_array Method.chain_id items h = (_, refl)
  call_array Method.accounts items h = (_, refl)
  call_array Method.block_number items h = (_, refl)
  call_array Method.get_balance items h = (_, refl)
  call_array Method.send_raw_transaction items h = absurd (h refl)
  call_array Method.get_transaction_by_hash Items.no_items h = (_, refl)
  call_array Method.get_transaction_by_hash (Items.item value items) h = (_, refl)
  call_array Method.get_block_by_number items h = (_, refl)
  call_array Method.eth_call items h = (_, refl)
  call_array Method.estimate_gas items h = (_, refl)
  call_array Method.get_logs items h = (_, refl)
  call_array Method.fee_history items h = (_, refl)
  call_array Method.get_transaction_receipt Items.no_items h = (_, refl)
  call_array Method.get_transaction_receipt (Items.item value items) h = (_, refl)
  call_array Method.client_version_of items h = (_, refl)
  call_array Method.net_version items h = (_, refl)

  send_raw-IsTransaction :
      (items : Items) (t digest : Text)
      → IsTransaction items t
      → sha256_hex t ≡ ok digest
      → call sha256_hex Method.send_raw_transaction (Json.array items)
        ≡ ok (Json.text (codes "0x" ++ digest))
  unfolding call eth_send_raw_transaction first_param first_of is_true
  send_raw-IsTransaction Items.no_items t digest h e = rw (sym h, e) refl
  send_raw-IsTransaction (Items.item value items) t digest h e = rw (h, e) refl

  -- A request for one of the methods with a list of parameters, or none, is answered with a result under
  -- its id: for each method but `eth_sendRawTransaction` whatever the parameters are, and for that one
  -- with the digest of its first parameter where that is a text that the digest takes, or of "0x"
  -- where there is none.
  pub dispatch-known :
      (req : Members) (name : Text) (method : Method) (items : Items)
      → get_member Json.null (codes "method") req ≡ Json.text name
      → lookup name methods ≡ some method
      → get_member (Json.array Items.no_items) (codes "params") req ≡ Json.array items
      → let req_id = get_member (Json.integer (pos 1)) (codes "id") req in
        (method ≢ Method.send_raw_transaction
          → (value : Json) × (dispatch sha256_hex (Json.object req)
              ≡ some (response req_id (codes "result") value)))
        × ((t digest : Text)
            → method ≡ Method.send_raw_transaction
            → IsTransaction items t
            → sha256_hex t ≡ ok digest
            → dispatch sha256_hex (Json.object req)
              ≡ some (response req_id (codes "result") (Json.text (codes "0x" ++ digest))))
  unfolding dispatch dispatch_named dispatch_method answer_of
  dispatch-known req name method items named known listed =
      rw (named, known, listed)
        (
          λ other. (let (value, e) = call_array method items other in (value, rw e refl)),
          λ t digest same is e. rw (same, send_raw-IsTransaction items t digest is e) refl,
        )
