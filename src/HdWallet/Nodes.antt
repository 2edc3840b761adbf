-- ===== src/HdWallet/Nodes.antt =====
-- Well-formed nodes of the curve secp256k1, and what a child of one should be.
use piso_chain.Base.{
  ℕ, ◌+◌, ◌%◌, ◌^◌, ◌<◌, ◌≤◌, ◌≡◌, ◌≢◌, none, some, [], ◌∷◌, ◌++◌, length, take, drop, text_key,
}
use piso_chain.Int.{ℤ, pos, negsuc}
use piso_chain.Bytes.{Bytes, AreBytes, from_bytes, bytes_onto}
use piso_chain.Text.{codes}
use piso_chain.HdWallet.{Crypto, HdNode, Error, Result, ok, err, secp256k1_n}

-- The indices that four bytes hold.
abbrev pub InRange : ℤ → Type 0
InRange (pos n) = n < 2 ^ 32
InRange (negsuc n) = ⊥

-- A private key of secp256k1: 32 bytes, not zero and below the order.
abbrev pub IsKey : Bytes → Type 0
IsKey key = (length key ≡ 32) × AreBytes key × (0 < from_bytes key) × (from_bytes key < secp256k1_n)

abbrev pub WellFormed : HdNode → Type 0
WellFormed node =
    (node.curve ≡ codes "secp256k1")
    × IsKey node.private_key
    × (length node.chain_code ≡ 32)
    × AreBytes node.chain_code

-- HMAC-SHA512 gives 64 bytes, RIPEMD-160 is there, and eth_keys takes every private key of the curve.
abbrev pub Works : Crypto → Type 0
Works c =
    ((key data_bytes : Bytes)
      → (length (c.hmac_sha512 key data_bytes) ≡ 64) × AreBytes (c.hmac_sha512 key data_bytes))
    × ((data_bytes : Bytes) → c.ripemd160 data_bytes ≢ none)
    × ((key : Bytes) → IsKey key → c.compressed_public_key key ≢ none)

-- The bytes of an index.
abbrev pub IsNumber : ℤ → Bytes → Type 0
IsNumber (pos n) bytes = bytes ≡ bytes_onto 4 n []
IsNumber (negsuc n) bytes = ⊥

-- What a child is derived from: for a hardened index a zero and the private key, for another the public
-- key, each before the four bytes of the index.
abbrev pub IsData : Crypto → HdNode → ℤ → Bytes → Type 0
IsData c node (pos n) d =
    (2 ^ 31 ≤ n → d ≡ 0 ∷ (node.private_key ++ bytes_onto 4 n []))
    × (n < 2 ^ 31
        → (key : Bytes) × (c.compressed_public_key node.private_key ≡ some key)
          × (d ≡ key ++ bytes_onto 4 n []))
IsData c node (negsuc n) d = ⊥

-- the sum of the keys, of which the first is the left half of a digest
abbrev pub key_sum : HdNode → Bytes → ℕ
key_sum node left = (from_bytes left + from_bytes node.private_key) % secp256k1_n

-- The left half of a digest gives a key: it is below the order, and the sum of the keys is not zero.
abbrev pub GivesKey : HdNode → Bytes → Type 0
GivesKey node left = (from_bytes left < secp256k1_n) × (key_sum node left ≢ 0)

-- A child is well formed, one deeper and has the index, which is in range; its key is the sum of the
-- keys, which the digest gives, and its chain code the right half of the digest.
abbrev pub ChildOf : Crypto → HdNode → ℤ → HdNode → Type 0
ChildOf c node index child =
    WellFormed child
    × (child.depth ≡ node.depth + 1)
    × (child.child_number ≡ index)
    × InRange index
    × (d : Bytes) × IsData c node index d
    × GivesKey node (take 32 (c.hmac_sha512 node.chain_code d))
    × (from_bytes child.private_key ≡ key_sum node (take 32 (c.hmac_sha512 node.chain_code d)))
    × (child.chain_code ≡ drop 32 (c.hmac_sha512 node.chain_code d))

-- OverflowError says that the index is out of range, ValueError that it is in range and that the digest
-- gives no key; the key library raises nothing.
abbrev pub ChildResult : Crypto → HdNode → ℤ → Result HdNode → Type 0
ChildResult c node index (ok child) = ChildOf c node index child
ChildResult c node index (err Error.value_error) =
    InRange index
    × (d : Bytes) × IsData c node index d
    × (¬ GivesKey node (take 32 (c.hmac_sha512 node.chain_code d)))
ChildResult c node index (err Error.overflow_error) = ¬ InRange index
ChildResult c node index (err Error.key_error) = ⊥
