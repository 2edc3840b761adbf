-- ===== src/Recovery/Backup.antt =====
-- An account that was recovered from its mnemonic, out of a keystore.
use piso_chain.Base.{ℕ, List, ◌≡◌, refl, sym, ap, subst, ◌∙◌, Text, text_eq}
use piso_chain.Int.{ℤ}
use piso_chain.Bytes.{Bytes, AreBytes}
use piso_chain.Text.{codes, lower}
use piso_chain.Outcome.{Result, ok, err, ◌>>=◌, AllOk}
use piso_chain.Derivation.{build_path}
use piso_chain.HdWallet
use piso_chain.HdWallet.{Crypto, HdNode, master_node, from_seed, derive_path}
use piso_chain.HdWallet.Nodes.{IsKey, WellFormed}
use piso_chain.HdWallet.Nodes
use piso_chain.HdWallet.Derived.{Ends}
use piso_chain.HdWallet.Path.{bip44_indexes, derive_path-build_path}
use piso_chain.Mnemonic
use piso_chain.Mnemonic.{to_seed}
use piso_chain.Keystore.{Cipher, encrypt_private_key}
use piso_chain.Keystore.RoundTrip.{Works, decrypt_keystore-encrypt_private_key}
use piso_chain.Accounts
use piso_chain.Accounts.{EthKeys, Account, init_account, from_hdnode}
use piso_chain.Accounts.Verify.{Keeps, init_account-Keeps}
use piso_chain.Recovery.{
  of_account, node_outcome, with_error, recover_from_mnemonic, recover_from_keystore,
}

module _ (keys : EthKeys) where
  -- An account of secp256k1 with a private key of the curve, as it is made from that key.
  abbrev pub IsOfKey : Account → Type 0
  IsOfKey account =
      IsKey account.private_key_bytes
      × (init_account keys account.private_key_bytes (codes "secp256k1") ≡ ok account)

  account_of :
      (private_key : Bytes)
      → IsKey private_key
      → (r : Result Accounts.Error Account) → init_account keys private_key (codes "secp256k1") ≡ r
      → AllOk IsOfKey (with_error of_account r)
  account_of private_key is (err e) h = tt
  account_of private_key is (ok account) h =
      let kept : account.private_key_bytes ≡ private_key =
        subst (AllOk (Keeps keys private_key)) h
          (init_account-Keeps keys private_key (codes "secp256k1")) in
      (subst IsKey (sym kept) is, ap (λ k. init_account keys k (codes "secp256k1")) kept ∙ h)

  child_account :
      (child : HdNode)
      → WellFormed child
      → AllOk IsOfKey (with_error of_account (from_hdnode keys child))
  unfolding from_hdnode
  child_account child h =
      subst
        (λ curve. AllOk IsOfKey (with_error of_account (init_account keys child.private_key curve)))
        (sym h.0)
        (account_of child.private_key h.1 (init_account keys child.private_key (codes "secp256k1"))
          refl)

  path_account :
      (node : HdNode) (indexes : List ℤ) (r : HdWallet.Result HdNode)
      → Ends node indexes r
      → AllOk IsOfKey (node_outcome r >>= λ child. with_error of_account (from_hdnode keys child))
  path_account node indexes (HdWallet.ok child) h = child_account child h.0
  path_account node indexes (HdWallet.err e) h = tt

  -- The master node of a seed.
  abbrev pub master_of : Crypto → Bytes → HdNode
  master_of crypto seed = master_node crypto (codes "Bitcoin seed") seed (codes "secp256k1")

  recovered-IsOfKey :
      (sha256 : Bytes → Bytes) (pbkdf2 : Text → Text → Bytes) (crypto : Crypto)
      (mnemonic passphrase : Text) (coin_type account_idx address_idx : ℕ) (seed : Bytes)
      → Nodes.Works crypto
      → to_seed sha256 pbkdf2 mnemonic passphrase ≡ Mnemonic.ok seed
      → WellFormed (master_of crypto seed)
      → AllOk IsOfKey (
          recover_from_mnemonic sha256 pbkdf2 crypto keys mnemonic passphrase coin_type account_idx
            address_idx)
  unfolding recover_from_mnemonic from_seed lower text_eq
  recovered-IsOfKey sha256 pbkdf2 crypto mnemonic passphrase coin_type account_idx address_idx seed
        works e wellformed =
      rw e (
        path_account (master_of crypto seed) (bip44_indexes coin_type account_idx 0 address_idx)
          (derive_path crypto (master_of crypto seed)
            (build_path coin_type account_idx 0 address_idx))
          (derive_path-build_path crypto works (master_of crypto seed) coin_type account_idx 0
            address_idx wellformed).1)

  keystore_account :
      (cipher : Cipher) (salt iv : Bytes) (id password : Text) (account : Account)
      → Works cipher
      → AreBytes salt
      → AreBytes iv
      → IsOfKey account
      → recover_from_keystore cipher keys
          (encrypt_private_key cipher salt iv id account.private_key_bytes password account.address)
          password
        ≡ ok account
  unfolding recover_from_keystore
  keystore_account cipher salt iv id password account works salt_bytes iv_bytes h =
      rw
        (
          (decrypt_keystore-encrypt_private_key cipher works salt iv id salt_bytes iv_bytes
              account.private_key_bytes password account.address h.0.1).0,
          h.1,
        )
        refl

  -- An account that `recover_from_mnemonic` returns has a private key of secp256k1, and comes back whole
  -- from a keystore into which its private key is encrypted, under the password of the keystore. This
  -- holds where the master node of the seed is well formed, HMAC-SHA512 gives 64 bytes, RIPEMD-160 is
  -- there, the key library takes the curve's private keys, and AES-GCM decrypts what it encrypts.
  pub recovered_backup :
      (sha256 : Bytes → Bytes) (pbkdf2 : Text → Text → Bytes) (crypto : Crypto)
      (mnemonic passphrase : Text) (coin_type account_idx address_idx : ℕ) (seed : Bytes)
      (account : Account) (cipher : Cipher) (salt iv : Bytes) (id password : Text)
      → Nodes.Works crypto
      → to_seed sha256 pbkdf2 mnemonic passphrase ≡ Mnemonic.ok seed
      → WellFormed (master_of crypto seed)
      → Works cipher
      → AreBytes salt
      → AreBytes iv
      → recover_from_mnemonic sha256 pbkdf2 crypto keys mnemonic passphrase coin_type account_idx
          address_idx
        ≡ ok account
      → IsKey account.private_key_bytes
        × (recover_from_keystore cipher keys
              (encrypt_private_key cipher salt iv id account.private_key_bytes password
                account.address)
              password
            ≡ ok account)
  recovered_backup sha256 pbkdf2 crypto mnemonic passphrase coin_type account_idx address_idx seed
        account cipher salt iv id password works e wellformed cipher_works salt_bytes iv_bytes
        recovered =
      let made : IsOfKey account = subst (AllOk IsOfKey) recovered (
        recovered-IsOfKey sha256 pbkdf2 crypto mnemonic passphrase coin_type account_idx address_idx
          seed works e wellformed) in
      (
        made.0,
        keystore_account cipher salt iv id password account cipher_works salt_bytes iv_bytes made,
      )
