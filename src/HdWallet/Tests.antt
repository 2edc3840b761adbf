-- ===== src/HdWallet/Tests.antt =====
-- A key library in which every digest is the number 7 in 64 bytes, and derivations with it.
use piso_chain.Base.{◌≡◌, ◌≢◌, ◌∙◌, refl, true, arith, none, some, [], ◌∷◌, All, text_eq}
use piso_chain.Int.{pos}
use piso_chain.Bytes.{
  Bytes, from_bytes, from_bytes_onto, to_bytes, bytes_onto, length-bytes_onto, bytes_onto-AreBytes,
}
use piso_chain.Text.{codes, lower}
use piso_chain.Derivation.{build_path}
use piso_chain.HdWallet.{
  Crypto, HdNode, Error, ok, err, ◌>>=◌, is_hardened, derive_child, child_data, child_private_key,
  derive_from_data, get_fingerprint, public_key_bytes, index_bytes, derive_indexes, derive_path,
  from_seed, master_node,
}
use piso_chain.HdWallet.Nodes.{WellFormed, Works, ChildResult}
use piso_chain.HdWallet.Child.{derive_child_result}
use piso_chain.HdWallet.Derived.{PathResult, derive_indexes_result, derive_indexes-IsHardened}
use piso_chain.HdWallet.Path.{bip44_indexes, derive_path-build_path}

-- the digest ends in a small number, its first half in a large one
abbrev digest : Bytes
digest = bytes_onto 32 41 (bytes_onto 32 7 [])

abbrev crypto : Crypto
crypto = record {
  hmac_sha512 = λ key data_bytes. digest;
  sha256 = λ data_bytes. 1 ∷ 2 ∷ [];
  ripemd160 = λ data_bytes. some (9 ∷ 8 ∷ 7 ∷ 6 ∷ 5 ∷ []);
  compressed_public_key = λ key. some (2 ∷ key);
}

some_ne_none : (b : Bytes) → some b ≢ none
some_ne_none b e = cc

crypto-Works : Works crypto
crypto-Works = (
  λ key data_bytes. (
    length-bytes_onto 32 41 (bytes_onto 32 7 []) ∙ unfold bytes_onto in refl,
    bytes_onto-AreBytes 32 41 (bytes_onto 32 7 []) (bytes_onto-AreBytes 32 7 [] tt),
  ),
  λ data_bytes. some_ne_none (9 ∷ 8 ∷ 7 ∷ 6 ∷ 5 ∷ []),
  λ key h. some_ne_none (2 ∷ key),
)

abbrev master : HdNode
master = record {
  private_key = bytes_onto 32 41 [];
  chain_code = bytes_onto 32 7 [];
  depth = 0;
  parent_fingerprint = 0 ∷ 0 ∷ 0 ∷ 0 ∷ [];
  child_number = pos 0;
  curve = codes "secp256k1";
}

abbrev edwards : HdNode
edwards = record master { curve = codes "ed25519" }

master-from_seed : from_seed crypto (1 ∷ 2 ∷ []) (codes "SECP256k1") ≡ ok master
unfolding from_seed master_node lower text_eq bytes_onto
master-from_seed = refl

unknown_curve : from_seed crypto (1 ∷ 2 ∷ []) (codes "p256") ≡ err Error.value_error
unfolding from_seed lower text_eq
unknown_curve = refl

master-WellFormed : WellFormed master
unfolding bytes_onto from_bytes from_bytes_onto
master-WellFormed = (
  refl,
  (refl, bytes_onto-AreBytes 32 41 [] tt, omega arith, omega arith),
  refl,
  bytes_onto-AreBytes 32 7 [] tt,
)

-- The private keys add up: 41 + 41.
child_key :
    (derive_child crypto master (pos 0x80000001) >>= λ child. ok (from_bytes child.private_key))
    ≡ ok 82
unfolding derive_child child_data child_private_key derive_from_data get_fingerprint
    public_key_bytes index_bytes to_bytes from_bytes from_bytes_onto bytes_onto text_eq
child_key = refl

too_large : derive_child crypto master (pos 0x100000000) ≡ err Error.overflow_error
unfolding derive_child child_data index_bytes to_bytes text_eq
too_large = refl

derive_child_result_example : ChildResult crypto master (pos 5) (derive_child crypto master (pos 5))
derive_child_result_example =
    derive_child_result crypto crypto-Works master (pos 5) master-WellFormed

two_steps :
    PathResult crypto master
      (pos 5 ∷ pos 0x80000000 ∷ [])
      (derive_indexes crypto master (pos 5 ∷ pos 0x80000000 ∷ []))
two_steps =
    derive_indexes_result crypto crypto-Works master (pos 5 ∷ pos 0x80000000 ∷ []) master-WellFormed

abbrev edwards_child : HdNode
edwards_child = record {
  private_key = bytes_onto 32 41 [];
  chain_code = bytes_onto 32 7 [];
  depth = 1;
  parent_fingerprint = 9 ∷ 8 ∷ 7 ∷ 6 ∷ [];
  child_number = pos 0x80000003;
  curve = codes "ed25519";
}

edwards_derived : derive_indexes crypto edwards (pos 0x80000003 ∷ []) ≡ ok edwards_child
unfolding derive_indexes derive_child child_data child_private_key derive_from_data get_fingerprint
    public_key_bytes index_bytes to_bytes bytes_onto lower text_eq
edwards_derived = refl

edwards_path_hardened : All (λ index. is_hardened index ≡ true) (pos 0x80000003 ∷ [])
edwards_path_hardened =
    derive_indexes-IsHardened crypto edwards edwards_child (pos 0x80000003 ∷ []) refl
      edwards_derived

derive_path-build_path_example :
    PathResult crypto master
      (bip44_indexes 2026 0 0 3)
      (derive_path crypto master (build_path 2026 0 0 3))
derive_path-build_path_example =
    derive_path-build_path crypto crypto-Works master 2026 0 0 3 master-WellFormed
