-- ===== src/HdWallet/Path.antt =====
-- `derive_path` along the paths that `build_path` writes.
use piso_chain.Base.{ℕ, ◌≡◌, ap, List, [], ◌∷◌}
use piso_chain.Int.{ℤ, pos, ◌+ℤ◌}
use piso_chain.Derivation.{hardened_offset, build_path}
use piso_chain.Derivation.RoundTrip.{parse-build_path}
use piso_chain.HdWallet.{Crypto, HdNode, Error, ◌>>=◌, or_raise, derive_indexes, derive_path}
use piso_chain.HdWallet.Nodes.{WellFormed, Works}
use piso_chain.HdWallet.Derived.{PathResult, derive_indexes_result}

-- `m / 44' / coin_type' / account' / change / address_index`
abbrev pub bip44_indexes : ℕ → ℕ → ℕ → ℕ → List ℤ
bip44_indexes coin_type account change address_index =
    (pos 44 +ℤ hardened_offset)
    ∷ (pos coin_type +ℤ hardened_offset)
    ∷ (pos account +ℤ hardened_offset)
    ∷ pos change
    ∷ pos address_index
    ∷ []

pub derive_path-eq :
    (c : Crypto) (node : HdNode) (coin_type account change address_index : ℕ)
    → derive_path c node (build_path coin_type account change address_index)
      ≡ derive_indexes c node (bip44_indexes coin_type account change address_index)
unfolding derive_path
derive_path-eq c node coin_type account change address_index =
    ap (λ o. or_raise Error.value_error o >>= λ indexes. derive_indexes c node indexes)
      (parse-build_path coin_type account change address_index)

-- A path that `build_path` writes is derived from a well-formed node of secp256k1 as its five indices, of
-- which the first three are hardened, in their order, each from the child before, up to the first one
-- that is refused: because it is out of range, or because its digest gives no key. The end is well
-- formed and five levels deeper, and the key library never raises. This holds where HMAC-SHA512 gives 64 bytes, RIPEMD-160 is there, and the key library takes the curve's private keys.
pub derive_path-build_path :
    (c : Crypto)
    → Works c
    → (node : HdNode) (coin_type account change address_index : ℕ) → WellFormed node
    → PathResult c node
        (bip44_indexes coin_type account change address_index)
        (derive_path c node (build_path coin_type account change address_index))
derive_path-build_path c works node coin_type account change address_index h =
    rw (derive_path-eq c node coin_type account change address_index)
      (derive_indexes_result c works node (bip44_indexes coin_type account change address_index) h)
