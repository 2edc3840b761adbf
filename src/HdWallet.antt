-- ===== src/HdWallet.antt =====
-- wallet/hdwallet/hdwallet.py, and `DerivationPath.derive_path` of wallet/derivation/path.py. The key
-- library and hashlib are a parameter, `Crypto`.
pub mod Nodes
pub mod Child
pub mod Derived
pub mod Path
mod Tests
use piso_chain.Base.{
  ℕ, ◌+◌, ◌-◌, ◌%◌, ◌^◌, ◌<◌, ◌≤◌, Bool, true, false, ◌&&◌, not, Option, none, some, List, [], ◌∷◌,
  ◌++◌, length, take, drop, Text, text_eq, ltb, leb, ◌==◌, if◌then◌else◌,
}
use piso_chain.Int.{ℤ, pos, negsuc, leb_ℤ}
use piso_chain.Bytes.{Bytes, AreBytes, from_bytes, to_bytes}
use piso_chain.Text.{codes, lower}
use piso_chain.Derivation
use piso_chain.Derivation.{hardened_offset}

-- the order N of the curve secp256k1
abbrev pub secp256k1_n : ℕ
secp256k1_n = 0xFFFFFFFFFFFFFFFFFFFFFFFFFFFFFFFEBAAEDCE6AF48A03BBFD25E8CD0364141

-- ValueError, the OverflowError of `to_bytes`, and what the key library raises
pub data Error : Type 0 where
  value_error overflow_error key_error : Error

pub data Result {ℓ} (A : Type ℓ) : Type ℓ where
  ok : A → Result A
  err : Error → Result A

infixl 5 ◌>>=◌
abbrev pub ◌>>=◌ {ℓ κ} : {A : Type ℓ} {B : Type κ} → Result A → (A → Result B) → Result B
ok a >>= f = f a
err e >>= f = err e

abbrev pub or_raise : {A : Type 0} → Error → Option A → Result A
or_raise e none = err e
or_raise e (some a) = ok a

-- `hmac.new(key, data, hashlib.sha512).digest()`, `hashlib.sha256(data).digest()`, the digest of
-- "ripemd160", which is `none` where OpenSSL lacks it, and the compressed public key of a private key,
-- `none` where eth_keys refuses it
pub record Crypto : Type 0 where
  pub hmac_sha512 : Bytes → Bytes → Bytes
  pub sha256 : Bytes → Bytes
  pub ripemd160 : Bytes → Option Bytes
  pub compressed_public_key : Bytes → Option Bytes

pub record HdNode : Type 0 where
  pub private_key : Bytes
  pub chain_code : Bytes
  pub depth : ℕ
  pub parent_fingerprint : Bytes
  pub child_number : ℤ
  pub curve : Text

-- `index.to_bytes(4, byteorder="big")`
unfoldable pub index_bytes : ℤ → Result Bytes
index_bytes (pos n) = or_raise Error.overflow_error (to_bytes 4 n)
index_bytes (negsuc n) = err Error.overflow_error

abbrev pub is_hardened : ℤ → Bool
is_hardened index = leb_ℤ (pos 0x80000000) index

module _ (c : Crypto) where
  unfoldable pub public_key_bytes : HdNode → Result Bytes
  public_key_bytes node =
      if text_eq node.curve (codes "secp256k1")
      then or_raise Error.key_error (c.compressed_public_key node.private_key)
      else if text_eq node.curve (codes "ed25519")
      then ok (c.sha256 (codes "ed25519:" ++ node.private_key))
      else err Error.value_error

  unfoldable pub get_fingerprint : HdNode → Result Bytes
  get_fingerprint node = do
    public_key ← public_key_bytes node
    ripemd ← or_raise Error.value_error (c.ripemd160 (c.sha256 public_key))
    ok (take 4 ripemd)

  -- `data`
  unfoldable pub child_data : HdNode → ℤ → Result Bytes
  child_data node index =
      if is_hardened index
      then (do number ← index_bytes index; ok (0 ∷ (node.private_key ++ number)))
      else (do
        public_key ← public_key_bytes node
        number ← index_bytes index
        ok (public_key ++ number))

  -- `child_priv_bytes`, of `I_L`
  unfoldable pub child_private_key : HdNode → Bytes → Result Bytes
  child_private_key node left =
      if text_eq node.curve (codes "secp256k1")
      then (let parse_left = from_bytes left in
          let child_priv = (parse_left + from_bytes node.private_key) % secp256k1_n in
          if leb secp256k1_n parse_left
          then err Error.value_error
          else if child_priv == 0
          then err Error.value_error
          else or_raise Error.overflow_error (to_bytes 32 child_priv))
      else if text_eq node.curve (codes "ed25519")
      then ok left
      else err Error.value_error

  -- from the computation of `data`
  unfoldable pub derive_from_data : HdNode → ℤ → Bytes → Result HdNode
  derive_from_data node index data_bytes = do
    let digest = c.hmac_sha512 node.chain_code data_bytes
    child_priv_bytes ← child_private_key node (take 32 digest)
    fingerprint ← get_fingerprint node
    ok (record {
      private_key = child_priv_bytes;
      chain_code = drop 32 digest;
      depth = node.depth + 1;
      parent_fingerprint = fingerprint;
      child_number = index;
      curve = lower node.curve;
    })

  unfoldable pub derive_child : HdNode → ℤ → Result HdNode
  derive_child node index =
      if text_eq node.curve (codes "ed25519") && not (is_hardened index)
      then err Error.value_error
      else (do data_bytes ← child_data node index; derive_from_data node index data_bytes)

  -- from the choice of `key_name`
  unfoldable pub master_node : Bytes → Bytes → Text → HdNode
  master_node key_name seed curve =
      let digest = c.hmac_sha512 key_name seed in
      record {
        private_key = take 32 digest;
        chain_code = drop 32 digest;
        depth = 0;
        parent_fingerprint = 0 ∷ 0 ∷ 0 ∷ 0 ∷ [];
        child_number = pos 0;
        curve = lower curve;
      }

  unfoldable pub from_seed : Bytes → Text → Result HdNode
  from_seed seed curve =
      let name = lower curve in
      if text_eq name (codes "secp256k1")
      then ok (master_node (codes "Bitcoin seed") seed name)
      else if text_eq name (codes "ed25519")
      then ok (master_node (codes "ed25519 seed") seed name)
      else err Error.value_error

  -- `for idx in indexes`
  unfoldable pub derive_indexes : HdNode → List ℤ → Result HdNode
  derive_indexes current [] = ok current
  derive_indexes current (index ∷ indexes) = do
    child ← derive_child current index
    derive_indexes child indexes

  unfoldable pub derive_path : HdNode → Text → Result HdNode
  derive_path node path_str = do
    indexes ← or_raise Error.value_error (Derivation.parse path_str)
    derive_indexes node indexes
