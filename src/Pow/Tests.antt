-- ===== src/Pow/Tests.antt =====
-- Mining where the hash is the nonce's own low byte, upside down, and the theorems at that hash.
use piso_chain.Base.{
  ◌-◌, ◌*◌, ◌%◌, ◌^◌, ◌<◌, ◌≤◌, ◌≡◌, ◌↔◌, refl, true, some, [], Text, arith, text_eq,
}
use piso_chain.Int.{pos}
use piso_chain.Bytes.{from_bytes, from_bytes_onto, bytes_onto}
use piso_chain.Text.{codes, without_0x}
use piso_chain.Text.Hex.{fromhex, hex}
use piso_chain.Text.Numbers.{digit_value, digit_char, to_digits}
use piso_chain.Pow.{
  Hashing, ok, err, Error, success, zfill, hash_with, compute_hash, difficulty_to_target,
  verify_proof, mine, mine_from,
}
use piso_chain.Pow.Target.{le-difficulty_to_target}
use piso_chain.Pow.Mine.{MineResult, mine_result, verify_proof_antitone}

-- Nonces below 252 have hashes above every target of five bits or more.
abbrev hashing : Hashing
hashing = record {
  has_web3 = true;
  to_checksum_address = λ address. some address;
  solidity_keccak =
      λ challenge address nonce. some (bytes_onto 32 ((255 - nonce % 256) * 2 ^ 248) []);
  sha256 = λ bytes. bytes;
}

abbrev keccak256 : Text
keccak256 = codes "keccak256"

unchallenged :
    compute_hash hashing (codes "0xzz") (codes "0x11") 0 keccak256 ≡ err Error.value_error
unfolding compute_hash without_0x zfill fromhex digit_value
unchallenged = refl

filled : zfill 5 (codes "-7") ≡ codes "-0007"
unfolding zfill
filled = refl

found :
    mine hashing keccak256 (codes "0x01") (codes "0x11") (pos 6) 250 10
    ≡ ok (
        success (record {
          nonce = 252;
          hash = codes "0x0300000000000000000000000000000000000000000000000000000000000000";
          hash_int = codes "0x300000000000000000000000000000000000000000000000000000000000000";
          target_int = codes "0x3ffffffffffffffffffffffffffffffffffffffffffffffffffffffffffffff";
          difficulty_bits = pos 6;
          hashes_computed = 3;
        }))
unfolding mine mine_from compute_hash hash_with without_0x zfill fromhex digit_value bytes_onto
    from_bytes from_bytes_onto difficulty_to_target hex digit_char to_digits text_eq
found = refl

accepted : verify_proof hashing keccak256 (codes "0x01") 252 (codes "0x11") (pos 6) ≡ ok true
unfolding verify_proof compute_hash hash_with without_0x zfill fromhex digit_value bytes_onto
    from_bytes from_bytes_onto difficulty_to_target text_eq
accepted = refl

mine_result_example :
    MineResult hashing keccak256
      (codes "0x01")
      (codes "0x11")
      (pos 6)
      250
      0
      10
      (mine hashing keccak256 (codes "0x01") (codes "0x11") (pos 6) 250 10)
mine_result_example = mine_result hashing keccak256 (codes "0x01") (codes "0x11") (pos 6) 250 10

accepted_at_two_bits :
    verify_proof hashing keccak256 (codes "0x01") 252 (codes "0x11") (pos 2) ≡ ok true
accepted_at_two_bits =
    verify_proof_antitone hashing keccak256 (codes "0x01") 252 (codes "0x11") (pos 2) (pos 6)
      (omega arith) accepted

le-difficulty_to_target_example :
    (2 ^ 240 ≤ difficulty_to_target (pos 16)) ↔ (2 ^ 240 * 2 ^ 16 < 2 ^ 256)
le-difficulty_to_target_example = le-difficulty_to_target 16 (2 ^ 240) (omega arith)
