-- ===== src/Recovery/Tests.antt =====
-- The account of the mnemonic of sixteen zeros, with key libraries whose digests are fixed.
use piso_chain.Base.{
  ◌*◌, ◌^◌, ◌≡◌, ◌≢◌, ◌∙◌, refl, sym, ap, true, false, arith, none, some, [], ◌∷◌, length,
  replicate, Text, text_eq, text_key,
}
use piso_chain.Int.{pos, ◌+ℤ◌}
use piso_chain.Bytes.{
  Bytes, AreBytes, from_bytes, from_bytes_onto, to_bytes, bytes_onto, length-bytes_onto,
  bytes_onto-AreBytes,
}
use piso_chain.Bits.{binary, zfill, value, value_onto}
use piso_chain.Text.{codes, lower}
use piso_chain.Outcome.{ok}
use piso_chain.Derivation.{build_path}
use piso_chain.HdWallet
use piso_chain.HdWallet.{
  Crypto, HdNode, derive_child, child_data, child_private_key, derive_from_data, get_fingerprint,
  public_key_bytes, index_bytes, derive_indexes, derive_path, from_seed, master_node,
}
use piso_chain.HdWallet.Nodes
use piso_chain.HdWallet.Nodes.{WellFormed, IsKey}
use piso_chain.HdWallet.Path.{derive_path-eq}
use piso_chain.Mnemonic
use piso_chain.Mnemonic.{
  join, words_of, checksum, mnemonic_of, entropy_to_mnemonic, mnemonic_to_entropy, validate,
  to_seed,
}
use piso_chain.Mnemonic.Wordlist.{wordlist}
use piso_chain.Mnemonic.RoundTrip.{mnemonic_to_entropy-entropy_to_mnemonic}
use piso_chain.Keystore.{encrypt_private_key}
use piso_chain.Keystore.Tests.{cipher, cipher-Works}
use piso_chain.Accounts.{EthKeys, Account, init_account, from_hdnode}
use piso_chain.Recovery.{recover_from_mnemonic, recover_from_keystore}
use piso_chain.Recovery.Backup.{master_of, recovered_backup}

abbrev sha256 : Bytes → Bytes
sha256 data_bytes = bytes_onto 32 (55 * 256 ^ 31) []

digest_bytes :
    (data_bytes : Bytes) → (length (sha256 data_bytes) ≡ 32) × AreBytes (sha256 data_bytes)
digest_bytes data_bytes = (
  length-bytes_onto 32 (55 * 256 ^ 31) [] ∙ omega arith,
  bytes_onto-AreBytes 32 (55 * 256 ^ 31) [] tt,
)

abbrev zeros : Bytes
zeros = bytes_onto 16 0 []

abbrev mnemonic : Text
mnemonic =
    codes
      "abandon abandon abandon abandon abandon abandon abandon abandon abandon abandon abandon about"

words_of_zeros : entropy_to_mnemonic sha256 zeros ≡ Mnemonic.ok mnemonic
unfolding entropy_to_mnemonic mnemonic_of checksum words_of join wordlist binary zfill value
    value_onto bytes_onto from_bytes from_bytes_onto
words_of_zeros = refl

abbrev entropy_back : Mnemonic.Result Text → Mnemonic.Result Bytes
entropy_back r = Mnemonic.◌>>=◌ r (mnemonic_to_entropy sha256)

entropy_of_words : mnemonic_to_entropy sha256 mnemonic ≡ Mnemonic.ok zeros
entropy_of_words =
    sym (ap entropy_back words_of_zeros)
    ∙ mnemonic_to_entropy-entropy_to_mnemonic sha256 digest_bytes zeros
        (bytes_onto-AreBytes 16 0 [] tt) (unfold bytes_onto in refl)

abbrev pbkdf2 : Text → Text → Bytes
pbkdf2 password salt = []

words_valid : validate sha256 mnemonic ≡ true
unfolding validate
words_valid =
    ap
      (λ (r : Mnemonic.Result Bytes). elim r [
        | Mnemonic.ok entropy ↦ true
        | Mnemonic.err e ↦ false
      ])
      entropy_of_words

seed_of_words : to_seed sha256 pbkdf2 mnemonic [] ≡ Mnemonic.ok []
unfolding to_seed
seed_of_words = rw words_valid refl

-- the digest ends in a small number, its first half in a large one
abbrev digest : Bytes
digest = bytes_onto 32 41 (bytes_onto 32 7 [])

abbrev crypto : Crypto
crypto = record {
  hmac_sha512 = λ key data_bytes. digest;
  sha256 = λ data_bytes. 1 ∷ 2 ∷ [];
  ripemd160 = λ data_bytes. some (9 ∷ 8 ∷ 7 ∷ 6 ∷ 5 ∷ []);
  compressed_public_key = λ key. some (2 ∷ key);
}

some_ne_none : (b : Bytes) → some b ≢ none
some_ne_none b e = cc

crypto-Works : Nodes.Works crypto
crypto-Works = (
  λ key data_bytes. (
    length-bytes_onto 32 41 (bytes_onto 32 7 []) ∙ unfold bytes_onto in refl,
    bytes_onto-AreBytes 32 41 (bytes_onto 32 7 []) (bytes_onto-AreBytes 32 7 [] tt),
  ),
  λ data_bytes. some_ne_none (9 ∷ 8 ∷ 7 ∷ 6 ∷ 5 ∷ []),
  λ key h. some_ne_none (2 ∷ key),
)

abbrev keys : EthKeys
keys = record {
  public_key = λ key. some key;
  key_to_hex = λ key. [];
  checksum_address = λ key. codes "0xA";
  sign_msg_hash = λ key hash. key;
  recovered_key = λ signature hash. some signature;
  sha256 = λ m. replicate 32 7;
  sha512 = λ m. m;
}

abbrev master : HdNode
master = master_of keys crypto []

master-WellFormed : WellFormed master
unfolding master_node lower bytes_onto from_bytes from_bytes_onto
master-WellFormed = (
  refl,
  (refl, bytes_onto-AreBytes 32 41 [] tt, omega arith, omega arith),
  refl,
  bytes_onto-AreBytes 32 7 [] tt,
)

-- Five steps add the number 41 five times.
abbrev child : HdNode
child = record {
  private_key = bytes_onto 32 246 [];
  chain_code = bytes_onto 32 7 [];
  depth = 5;
  parent_fingerprint = 9 ∷ 8 ∷ 7 ∷ 6 ∷ [];
  child_number = pos 0;
  curve = codes "secp256k1";
}

child_of_path : derive_path crypto master (build_path 2026 0 0 0) ≡ HdWallet.ok child
unfolding master_node derive_indexes derive_child child_data child_private_key derive_from_data
    get_fingerprint public_key_bytes index_bytes to_bytes from_bytes from_bytes_onto bytes_onto
    lower text_eq ◌+ℤ◌
child_of_path = derive_path-eq crypto master 2026 0 0 0 ∙ refl

abbrev account : Account
account = record {
  private_key_bytes = bytes_onto 32 246 [];
  curve = codes "secp256k1";
  public_key = bytes_onto 32 246 [];
  address = codes "0xA";
}

account_of_child : from_hdnode keys child ≡ ok account
unfolding from_hdnode init_account lower text_eq
account_of_child = refl

account_of_words : recover_from_mnemonic sha256 pbkdf2 crypto keys mnemonic [] 2026 0 0 ≡ ok account
unfolding recover_from_mnemonic from_seed lower text_eq
account_of_words = rw (seed_of_words, child_of_path, account_of_child) refl

recovered_backup_example :
    IsKey account.private_key_bytes
    × (recover_from_keystore cipher keys
          (encrypt_private_key cipher
            (3 ∷ [])
            (4 ∷ [])
            []
            account.private_key_bytes
            (codes "pw")
            account.address)
          (codes "pw")
        ≡ ok account)
recovered_backup_example =
    recovered_backup keys sha256 pbkdf2 crypto mnemonic [] 2026 0 0 [] account cipher (3 ∷ [])
      (4 ∷ []) [] (codes "pw") crypto-Works seed_of_words master-WellFormed cipher-Works
      (omega arith, tt) (omega arith, tt) account_of_words
