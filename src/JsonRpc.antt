-- ===== src/JsonRpc.antt =====
-- rpc/jsonrpc_server.py. A request is a JSON value, as `json.loads` gives it, and the hexadecimal SHA-256
-- of a text is an argument, which may raise where the text has no UTF-8. A raised exception is its message.
pub mod Methods
pub mod Batch
mod Tests
use piso_chain.Base.{
  ℕ, Bool, Option, none, some, List, [], ◌∷◌, ◌++◌, Text, text_eq, text_key, if◌then◌else◌,
}
use piso_chain.Int.{ℤ, pos, negsuc}
use piso_chain.Text.{codes}
use piso_chain.Text.Numbers.{int_text}
use piso_chain.Dict.{Dict, lookup}
use piso_chain.Outcome.{Result, ok, err, ◌>>=◌}
use piso_chain.Json.{
  Json, Items, Members, get_member, is_true, type_name, of_texts, fields, followed,
}

abbrev pub chain_id_hex : Text
chain_id_hex = codes "0x1ee349"

abbrev pub client_version : Text
client_version = codes "PISO-Chain/v1.1.0/python-evm"

abbrev account : Text
account = codes "0x70997970C51812dc3A010C7d01b50e0d17dc79C8"

abbrev recipient : Text
recipient = codes "0x3C44CdD47a356F4300374a3287339661161B406B"

abbrev block_hash : Text
block_hash = codes "0x1234567890abcdef1234567890abcdef1234567890abcdef1234567890abcdef"

-- `value[0]`
unfoldable pub first_of : Json → Result Text Json
first_of (Json.array (Items.item value items)) = ok value
first_of (Json.array Items.no_items) = err (codes "list index out of range")
first_of (Json.text (c ∷ t)) = ok (Json.text (c ∷ []))
first_of (Json.text []) = err (codes "string index out of range")
first_of (Json.object pairs) = err (codes "0")
first_of Json.null = err (codes "'NoneType' object is not subscriptable")
first_of (Json.boolean b) = err (codes "'bool' object is not subscriptable")
first_of (Json.integer n) = err (codes "'int' object is not subscriptable")
first_of (Json.decimal t) = err (codes "'float' object is not subscriptable")

-- `params[0] if params else default`
unfoldable pub first_param : Json → Text → Result Text Json
first_param params default = if is_true params then first_of params else ok (Json.text default)

-- the text on which `encode` is called
abbrev encoded : Json → Result Text Text
encoded (Json.text t) = ok t
encoded Json.null = err (codes "'NoneType' object has no attribute 'encode'")
encoded (Json.boolean b) = err (codes "'bool' object has no attribute 'encode'")
encoded (Json.integer n) = err (codes "'int' object has no attribute 'encode'")
encoded (Json.decimal t) = err (codes "'float' object has no attribute 'encode'")
encoded (Json.array items) = err (codes "'list' object has no attribute 'encode'")
encoded (Json.object pairs) = err (codes "'dict' object has no attribute 'encode'")

unfoldable pub eth_send_raw_transaction : (Text → Result Text Text) → Json → Result Text Json
eth_send_raw_transaction sha256_hex params = do
  tx_hex ← first_param params (codes "0x")
  data_text ← encoded tx_hex
  digest ← sha256_hex data_text
  ok (Json.text (codes "0x" ++ digest))

unfoldable pub eth_get_transaction_by_hash : Json → Result Text Json
eth_get_transaction_by_hash params = do
  tx_hash ← first_param params (codes "0x00")
  ok (
      Json.object (
        Members.member (codes "hash") tx_hash (
          fields (
            (codes "nonce", codes "0x0")
            ∷ (codes "blockHash", block_hash)
            ∷ (codes "blockNumber", codes "0x1")
            ∷ (codes "transactionIndex", codes "0x0")
            ∷ (codes "from", account)
            ∷ (codes "to", recipient)
            ∷ (codes "value", codes "0xde0b6b3a7640000")
            ∷ (codes "gas", codes "0x5208")
            ∷ (codes "gasPrice", codes "0x3b9aca00")
            ∷ (codes "input", codes "0x")
            ∷ []))))

unfoldable pub eth_get_block_by_number : Json
eth_get_block_by_number = Json.object (
    followed
      ((codes "number", codes "0x1")
        ∷ (codes "hash", block_hash)
        ∷ (
          codes "parentHash",
          codes "0x0000000000000000000000000000000000000000000000000000000000000000",
        )
        ∷ (codes "timestamp", codes "0x66000000")
        ∷ [])
      (Members.member (codes "transactions") (Json.array Items.no_items)
        (fields ((codes "miner", account) ∷ []))))

unfoldable pub eth_fee_history : Json
eth_fee_history = Json.object (
    Members.member (codes "oldestBlock") (Json.text (codes "0x1")) (
      Members.member (codes "baseFeePerGas")
        (Json.array (of_texts (codes "0x3b9aca00" ∷ codes "0x3b9aca00" ∷ [])))
        (Members.member (codes "gasUsedRatio")
          (Json.array (Items.item (Json.decimal (codes "0.5")) Items.no_items))
          Members.no_members)))

unfoldable pub eth_get_transaction_receipt : Json → Result Text Json
eth_get_transaction_receipt params = do
  tx_hash ← first_param params (codes "0x00")
  ok (
      Json.object (
        Members.member (codes "transactionHash") tx_hash (
          followed
            ((codes "transactionIndex", codes "0x0")
              ∷ (codes "blockHash", block_hash)
              ∷ (codes "blockNumber", codes "0x1")
              ∷ (codes "from", account)
              ∷ (codes "to", recipient)
              ∷ (codes "cumulativeGasUsed", codes "0x5208")
              ∷ (codes "gasUsed", codes "0x5208")
              ∷ [])
            (Members.member (codes "contractAddress") Json.null (
              Members.member (codes "logs") (Json.array Items.no_items)
                (fields ((codes "status", codes "0x1") ∷ [])))))))

pub data Method : Type 0 where
  chain_id accounts block_number get_balance send_raw_transaction get_transaction_by_hash : Method
  get_block_by_number eth_call estimate_gas get_logs fee_history get_transaction_receipt : Method
  client_version_of net_version : Method

-- `self._methods`
unfoldable pub methods : Dict Text Method
methods =
    (codes "eth_chainId", Method.chain_id)
    ∷ (codes "eth_accounts", Method.accounts)
    ∷ (codes "eth_blockNumber", Method.block_number)
    ∷ (codes "eth_getBalance", Method.get_balance)
    ∷ (codes "eth_sendRawTransaction", Method.send_raw_transaction)
    ∷ (codes "eth_getTransactionByHash", Method.get_transaction_by_hash)
    ∷ (codes "eth_getBlockByNumber", Method.get_block_by_number)
    ∷ (codes "eth_call", Method.eth_call)
    ∷ (codes "eth_estimateGas", Method.estimate_gas)
    ∷ (codes "eth_getLogs", Method.get_logs)
    ∷ (codes "eth_feeHistory", Method.fee_history)
    ∷ (codes "eth_getTransactionReceipt", Method.get_transaction_receipt)
    ∷ (codes "web3_clientVersion", Method.client_version_of)
    ∷ (codes "net_version", Method.net_version)
    ∷ []

-- `self._methods[method](params)`
unfoldable pub call : (Text → Result Text Text) → Method → Json → Result Text Json
call sha256_hex Method.chain_id params = ok (Json.text chain_id_hex)
call sha256_hex Method.accounts params = ok (Json.array (of_texts (account ∷ [])))
call sha256_hex Method.block_number params = ok (Json.text (codes "0x1"))
call sha256_hex Method.get_balance params = ok (Json.text (codes "0x3635c9adc5dea00000"))
call sha256_hex Method.send_raw_transaction params = eth_send_raw_transaction sha256_hex params
call sha256_hex Method.get_transaction_by_hash params = eth_get_transaction_by_hash params
call sha256_hex Method.get_block_by_number params = ok eth_get_block_by_number
call sha256_hex Method.eth_call params =
    ok (Json.text (codes "0x0000000000000000000000000000000000000000000000000000000000000001"))
call sha256_hex Method.estimate_gas params = ok (Json.text (codes "0x5208"))
call sha256_hex Method.get_logs params = ok (Json.array Items.no_items)
call sha256_hex Method.fee_history params = ok eth_fee_history
call sha256_hex Method.get_transaction_receipt params = eth_get_transaction_receipt params
call sha256_hex Method.client_version_of params = ok (Json.text client_version)
call sha256_hex Method.net_version params = ok (Json.text (codes "2026001"))

unfoldable pub response : Json → Text → Json → Json
response req_id name value = Json.object (
    Members.member (codes "jsonrpc") (Json.text (codes "2.0"))
      (Members.member (codes "id") req_id (Members.member name value Members.no_members)))

unfoldable pub error_value : ℤ → Text → Json
error_value code message = Json.object (
    Members.member (codes "code") (Json.integer code)
      (Members.member (codes "message") (Json.text message) Members.no_members))

-- `-n`
abbrev pub minus : ℕ → ℤ
minus ℕ.zero = pos 0
minus (ℕ.suc n) = negsuc n

unfoldable pub answer_of : Json → Result Text Json → Json
answer_of req_id (ok result) = response req_id (codes "result") result
answer_of req_id (err message) = response req_id (codes "error") (error_value (minus 32000) message)

pub record Reply : Type 0 where
  pub status : ℕ
  pub body : Json

unfoldable pub parse_error : Reply
parse_error = record {
  status = 400;
  body = Json.object (
      Members.member (codes "jsonrpc") (Json.text (codes "2.0")) (
        Members.member (codes "error") (error_value (minus 32700) (codes "Parse error"))
          Members.no_members));
}

abbrev replied : Option Json → Reply
replied none = parse_error
replied (some body) = record { status = 200; body = body }

abbrev batched : Option Items → Reply
batched none = parse_error
batched (some items) = record { status = 200; body = Json.array items }

abbrev pub joined : Option Json → Option Items → Option Items
joined none rest = none
joined (some value) none = none
joined (some value) (some rest) = some (Items.item value rest)

abbrev pub not_found : Json → Text → Json
not_found req_id name =
    response req_id (codes "error")
      (error_value (minus 32601) (codes "Method '" ++ (name ++ codes "' not found")))

module _ (sha256_hex : Text → Result Text Text) where
  unfoldable pub dispatch_method : Json → Json → Text → Option Method → Json
  dispatch_method req_id params name none = not_found req_id name
  dispatch_method req_id params name (some method) =
      answer_of req_id (call sha256_hex method params)

  -- `none` where the method cannot stand under a key: a TypeError. Only texts are keys.
  unfoldable pub dispatch_named : Json → Json → Json → Option Json
  dispatch_named req_id params (Json.text name) =
      some (dispatch_method req_id params name (lookup name methods))
  dispatch_named req_id params Json.null = some (not_found req_id (codes "None"))
  dispatch_named req_id params (Json.boolean Bool.true) = some (not_found req_id (codes "True"))
  dispatch_named req_id params (Json.boolean Bool.false) = some (not_found req_id (codes "False"))
  dispatch_named req_id params (Json.integer n) = some (not_found req_id (int_text n))
  dispatch_named req_id params (Json.decimal t) = some (not_found req_id t)
  dispatch_named req_id params (Json.array items) = none
  dispatch_named req_id params (Json.object pairs) = none

  -- `none` also where the request is no object: an AttributeError
  unfoldable pub dispatch : Json → Option Json
  dispatch (Json.object req) =
      dispatch_named (get_member (Json.integer (pos 1)) (codes "id") req)
        (get_member (Json.array Items.no_items) (codes "params") req)
        (get_member Json.null (codes "method") req)
  dispatch Json.null = none
  dispatch (Json.boolean b) = none
  dispatch (Json.integer n) = none
  dispatch (Json.decimal t) = none
  dispatch (Json.text t) = none
  dispatch (Json.array items) = none

  -- `[self.dispatcher.dispatch(r) for r in req]`
  unfoldable pub dispatch_all : Items → Option Items
  dispatch_all Items.no_items = some Items.no_items
  dispatch_all (Items.item r req) = let rest = dispatch_all req in joined (dispatch r) rest

  -- the reply to a body: `none` is one that does not decode or parse
  unfoldable pub do_post : Option Json → Reply
  do_post none = parse_error
  do_post (some (Json.array items)) = batched (dispatch_all items)
  do_post (some (Json.object pairs)) = replied (dispatch (Json.object pairs))
  do_post (some Json.null) = replied (dispatch Json.null)
  do_post (some (Json.boolean b)) = replied (dispatch (Json.boolean b))
  do_post (some (Json.integer n)) = replied (dispatch (Json.integer n))
  do_post (some (Json.decimal t)) = replied (dispatch (Json.decimal t))
  do_post (some (Json.text t)) = replied (dispatch (Json.text t))
