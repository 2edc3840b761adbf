-- ===== src/Relayer/Preimage.antt =====
-- The text under the hash of a proposal.
use piso_chain.Base.{
  ℕ, ◌≡◌, ◌≢◌, ◌⊎◌, inl, inr, Bool-cases, text_eq, text_eq_iff, sym, ap, ◌∙◌, false, true, some, [],
  ◌∷◌, ◌++◌, All-map, arith, Text,
}
use piso_chain.Text.{split_on}
use piso_chain.Text.Parts.{Lacks, split_on-append, split_on-last}
use piso_chain.Text.Numbers.{is_hex_digit, to_digits, to_digits-Hex, scan, scan-to_digits}
use piso_chain.Relayer.{Deposit, raw_text, compute_tx_hash, hash_of}

to_digits-Lacks : (n : ℕ) → Lacks b':' (to_digits 10 n)
to_digits-Lacks n =
    All-map (λ c. is_hex_digit c ≡ true) (λ c. c ≢ b':') (to_digits 10 n) (λ c h e. ground arith)
      (to_digits-Hex 10 n (omega arith) (omega arith))

to_digits-injective : (m n : ℕ) → to_digits 10 m ≡ to_digits 10 n → m ≡ n
to_digits-injective m n e =
    let left = scan-to_digits 10 m (omega arith) (omega arith) in
    let right = scan-to_digits 10 n (omega arith) (omega arith) in
    let same : some m ≡ some n = sym left ∙ ap (scan 10 0 false) e ∙ right in cc

split_on-raw_text :
    (sender target_address : Text) (amount block_number : ℕ)
    → Lacks b':' sender
    → Lacks b':' target_address
    → split_on b':' (raw_text sender target_address amount block_number)
      ≡ sender ∷ target_address ∷ to_digits 10 amount ∷ to_digits 10 block_number ∷ []
unfolding raw_text
split_on-raw_text sender target_address amount block_number h k =
    split_on-append b':' sender
      (target_address ++ b':' ∷ (to_digits 10 amount ++ b':' ∷ to_digits 10 block_number)) h
    ∙ ap (λ t. sender ∷ t)
        (split_on-append b':' target_address
            (to_digits 10 amount ++ b':' ∷ to_digits 10 block_number) k
          ∙ ap (λ t. target_address ∷ t)
              (split_on-append b':' (to_digits 10 amount) (to_digits 10 block_number)
                  (to_digits-Lacks amount)
                ∙ ap (λ t. to_digits 10 amount ∷ t)
                    (split_on-last b':' (to_digits 10 block_number)
                      (to_digits-Lacks block_number))))

raw_text-injective :
    (event other : Deposit) (block_number other_block : ℕ)
    → Lacks b':' event.sender
    → Lacks b':' event.target_address
    → Lacks b':' other.sender
    → Lacks b':' other.target_address
    → raw_text event.sender event.target_address event.amount block_number
      ≡ raw_text other.sender other.target_address other.amount other_block
    → (event.sender ≡ other.sender)
      × (event.target_address ≡ other.target_address)
      × (event.amount ≡ other.amount)
      × (block_number ≡ other_block)
raw_text-injective event other block_number other_block h k h' k' text =
    let parts =
      sym (split_on-raw_text event.sender event.target_address event.amount block_number h k)
      ∙ ap (split_on b':') text
      ∙ split_on-raw_text other.sender other.target_address other.amount other_block h' k' in
    (
      cc,
      cc,
      to_digits-injective event.amount other.amount cc,
      to_digits-injective block_number other_block cc,
    )

-- Where no address holds a colon, two deposits with the same hash have the same sender, recipient,
-- amount and block, or their hash shows two different texts that Keccak-256 does not tell apart.
pub compute_tx_hash_collision :
    (keccak : Text → Text) (event other : Deposit) (block_number other_block : ℕ)
    → Lacks b':' event.sender
    → Lacks b':' event.target_address
    → Lacks b':' other.sender
    → Lacks b':' other.target_address
    → hash_of keccak event block_number ≡ hash_of keccak other other_block
    → ((event.sender ≡ other.sender)
        × (event.target_address ≡ other.target_address)
        × (event.amount ≡ other.amount)
        × (block_number ≡ other_block))
      ⊎ ((s t : Text) × (s ≢ t) × (keccak s ≡ keccak t))
unfolding compute_tx_hash
compute_tx_hash_collision keccak event other block_number other_block h k h' k' e =
    let s = raw_text event.sender event.target_address event.amount block_number in
    let t = raw_text other.sender other.target_address other.amount other_block in
    elim (Bool-cases (text_eq s t)) [
      | inl same ↦ inl (
          raw_text-injective event other block_number other_block h k h' k'
            ((text_eq_iff s t).0 same))
      | inr differ ↦
          inr (s, t, (λ same. (let eq : text_eq s t ≡ true = (text_eq_iff s t).1 same in cc)), cc)
    ]
