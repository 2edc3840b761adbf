-- ===== src/Multisig/Tests.antt =====
-- A wallet of three owners, where a signature is its signer's address, and its hash is not looked at.
use piso_chain.Base.{◌≡◌, refl, true, false, none, some, [], ◌∷◌, text_eq, text_key}
use piso_chain.Text.{codes, lower}
use piso_chain.Text.Numbers.{to_digits, digit_char}
use piso_chain.Text.Hex.{hex}
use piso_chain.Dict.{insert}
use piso_chain.Multisig.{
  Keys, MultisigTransaction, MultisigWallet, init_transaction, add_signature, init_wallet,
  checksum_addresses, multisig_address, sorted, insert_sorted, before, concat, member,
  count_signature, check_signature, count_signatures, verify_transaction,
}
use piso_chain.Multisig.Verify.{VerifyResult, verify_transaction_result}

abbrev keys : Keys
keys = record {
  to_checksum_address = λ t. some (lower t);
  recovered_address = λ signature hash. some signature;
  sha256 = λ t. 171 ∷ 205 ∷ [];
}

abbrev wallet : MultisigWallet
wallet = record {
  owners = codes "0xc" ∷ codes "0xa" ∷ codes "0xb" ∷ [];
  threshold = 2;
  address = codes "0xabcd";
}

abbrev blank : MultisigTransaction
blank = init_transaction (1 ∷ []) (codes "0xd") 1000 []

-- Signed by one owner, and by a stranger
abbrev once : MultisigTransaction
once = add_signature (add_signature blank (codes "0xA") (codes "0xa")) (codes "0xE") (codes "0xe")

-- by another owner as well, and falsely for the third
abbrev twice : MultisigTransaction
twice = add_signature (add_signature once (codes "0xB") (codes "0xb")) (codes "0xC") (codes "0xb")

wallet-init_wallet : init_wallet keys (codes "0xC" ∷ codes "0xA" ∷ codes "0xB" ∷ []) 2 ≡ some wallet
unfolding init_wallet checksum_addresses multisig_address sorted insert_sorted before concat lower
    to_digits hex digit_char
wallet-init_wallet = refl

sorted_owners : sorted wallet.owners ≡ codes "0xa" ∷ codes "0xb" ∷ codes "0xc" ∷ []
unfolding sorted insert_sorted before
sorted_owners = refl

threshold_too_high : init_wallet keys (codes "0xC" ∷ []) 2 ≡ none
unfolding init_wallet
threshold_too_high = refl

one_signature : verify_transaction keys wallet once ≡ some false
unfolding verify_transaction count_signatures check_signature count_signature member add_signature
    insert init_transaction lower text_eq
one_signature = refl

two_signatures : verify_transaction keys wallet twice ≡ some true
unfolding verify_transaction count_signatures check_signature count_signature member add_signature
    insert init_transaction lower text_eq
two_signatures = refl

verify_transaction_result_example :
    VerifyResult keys wallet twice (verify_transaction keys wallet twice)
verify_transaction_result_example = verify_transaction_result keys wallet twice
