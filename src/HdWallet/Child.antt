-- ===== src/HdWallet/Child.antt =====
-- What `HDNode.derive_child` ends with on a node of the curve secp256k1.
use native.Mathlib.Nat.{mod-lt}
use piso_chain.Base.{
  ℕ, zero, suc, ◌+◌, ◌-◌, ◌%◌, ◌^◌, ◌<◌, ◌≡◌, ◌≢◌, refl, ap, ◌∙◌, inl, inr, true, false, Bool-cases,
  Option, Option-cases, none, some, [], ◌∷◌, ◌++◌, length, take, drop, Text, text_eq, ltb, leb,
  ◌==◌, arith,
}
use piso_chain.Int.{ℤ, pos, negsuc}
use piso_chain.Bytes.{
  Bytes, AreBytes, from_bytes, to_bytes, to_bytes-eq, bytes_onto, from_bytes-bytes_onto,
  length-bytes_onto, bytes_onto-AreBytes,
}
use piso_chain.Text.{codes, lower}
use piso_chain.HdWallet.{
  Crypto, HdNode, Error, Result, ok, err, ◌>>=◌, or_raise, secp256k1_n, index_bytes, is_hardened,
  public_key_bytes, get_fingerprint, child_data, child_private_key, derive_from_data, derive_child,
}
use piso_chain.HdWallet.Nodes.{
  InRange, IsKey, WellFormed, Works, IsNumber, IsData, key_sum, GivesKey, ChildResult,
}

-- `index_bytes`, whichever way it ends
abbrev NumberResult : ℤ → Result Bytes → Type 0
NumberResult index (ok bytes) = InRange index × IsNumber index bytes
NumberResult index (err e) = (e ≡ Error.overflow_error) × (¬ InRange index)

index_bytes_result : (index : ℤ) → NumberResult index (index_bytes index)
unfolding index_bytes to_bytes
index_bytes_result (pos n) = elim (Bool-cases (ltb n (256 ^ 4))) [
  | inl small ↦ rw small (ground arith, refl)
  | inr large ↦ rw large (refl, ground arith)
]
index_bytes_result (negsuc n) = (refl, λ h. h)

AreBytes-drop : (n : ℕ) (xs : Bytes) → AreBytes xs → AreBytes (drop n xs)
AreBytes-drop zero xs h = h
AreBytes-drop (suc n) [] h = tt
AreBytes-drop (suc n) (x ∷ xs) h = AreBytes-drop n xs h.1

length-drop : (n : ℕ) (xs : Bytes) → length (drop n xs) ≡ length xs - n
length-drop zero xs = omega arith
length-drop (suc n) [] = omega arith
length-drop (suc n) (x ∷ xs) = length-drop n xs ∙ omega arith

IsKey-of : (n : ℕ) → 0 < n → n < secp256k1_n → IsKey (bytes_onto 32 n [])
IsKey-of n p h =
    let same : from_bytes (bytes_onto 32 n []) ≡ n =
      from_bytes-bytes_onto 32 n (omega (arith, h)) in
    (length-bytes_onto 32 n [], bytes_onto-AreBytes 32 n [] tt, rw same p, rw same h)

-- `child_private_key`, whichever way it ends
abbrev KeyResult : HdNode → Bytes → Result Bytes → Type 0
KeyResult node left (ok key) = IsKey key × GivesKey node left × (from_bytes key ≡ key_sum node left)
KeyResult node left (err e) = (e ≡ Error.value_error) × (¬ GivesKey node left)

module _ (c : Crypto) where
  child_private_key_result :
      (node : HdNode) (left : Bytes)
      → node.curve ≡ codes "secp256k1"
      → KeyResult node left (child_private_key c node left)
  unfolding child_private_key text_eq
  child_private_key_result node left e =
      let total : ℕ = from_bytes left + from_bytes node.private_key in
      rw e (elim (Bool-cases (leb secp256k1_n (from_bytes left))) [
        | inl large ↦ rw large (refl, λ h. ground (arith, h.0))
        | inr small ↦ rw small (elim (Bool-cases (total % secp256k1_n == 0)) [
          | inl none_left ↦ rw none_left (refl, λ h. h.1 (ground (arith, none_left)))
          | inr some_left ↦
              let below : total % secp256k1_n < secp256k1_n = mod-lt total (omega arith) in
              rw (some_left, to_bytes-eq 32 (total % secp256k1_n) (omega (arith, below)))
                (
                  IsKey-of (total % secp256k1_n) (ground (arith, some_left)) below,
                  (ground (arith, small), ground (arith, some_left)),
                  from_bytes-bytes_onto 32 (total % secp256k1_n) (omega (arith, below)),
                )
        ])
      ])

  -- The public key of a well-formed node is there, and so is its fingerprint.
  abbrev Succeeds : {A : Type 0} → Result A → Type 0
  Succeeds (ok a) = Unit
  Succeeds (err e) = ⊥

  or_raise-Succeeds : {A : Type 0} (e : Error) (o : Option A) → o ≢ none → Succeeds (or_raise e o)
  or_raise-Succeeds e none h = h refl
  or_raise-Succeeds e (some a) h = tt

  public_key-Succeeds :
      Works c → (node : HdNode) → WellFormed node → Succeeds (public_key_bytes c node)
  unfolding public_key_bytes text_eq
  public_key-Succeeds works node h = rw h.0 (
      or_raise-Succeeds Error.key_error (c.compressed_public_key node.private_key)
        (works.2 node.private_key h.1))

  bind-Succeeds :
      {A B : Type 0} (r : Result A) (f : A → Result B)
      → Succeeds r
      → ((a : A) → Succeeds (f a))
      → Succeeds (r >>= f)
  bind-Succeeds (ok a) f h k = k a
  bind-Succeeds (err e) f h k = h

  fingerprint-Succeeds :
      Works c → (node : HdNode) → WellFormed node → Succeeds (get_fingerprint c node)
  unfolding get_fingerprint
  fingerprint-Succeeds works node h =
      bind-Succeeds (public_key_bytes c node)
        (λ k. or_raise Error.value_error (c.ripemd160 (c.sha256 k)) >>= λ r. ok (take 4 r))
        (public_key-Succeeds works node h)
        (λ k.
          bind-Succeeds (or_raise Error.value_error (c.ripemd160 (c.sha256 k))) (λ r. ok (take 4 r))
            (or_raise-Succeeds Error.value_error (c.ripemd160 (c.sha256 k)) (works.1 (c.sha256 k)))
            (λ r. tt))

  -- From the data on `derive_child` ends as it should.
  from_data :
      Works c
      → (node : HdNode) (index : ℤ) (data_bytes : Bytes) → WellFormed node
      → InRange index
      → IsData c node index data_bytes
      → ChildResult c node index (derive_from_data c node index data_bytes)
  unfolding derive_from_data
  from_data works node index data_bytes h r is =
      let digest : Bytes = c.hmac_sha512 node.chain_code data_bytes in
      let sized : (length digest ≡ 64) × AreBytes digest = works.0 node.chain_code data_bytes in
      finish (child_private_key c node (take 32 digest)) (get_fingerprint c node)
        (child_private_key_result node (take 32 digest) h.0) (fingerprint-Succeeds works node h)
        (length-drop 32 digest ∙ omega (arith, sized.0)) (AreBytes-drop 32 digest sized.1)
    where
      finish :
          (key fingerprint : Result Bytes)
          → KeyResult node (take 32 (c.hmac_sha512 node.chain_code data_bytes)) key
          → Succeeds fingerprint
          → length (drop 32 (c.hmac_sha512 node.chain_code data_bytes)) ≡ 32
          → AreBytes (drop 32 (c.hmac_sha512 node.chain_code data_bytes))
          → ChildResult c node index (
              key >>= λ child_priv_bytes. fingerprint >>= λ f. ok (record {
                private_key = child_priv_bytes;
                chain_code = drop 32 (c.hmac_sha512 node.chain_code data_bytes);
                depth = node.depth + 1;
                parent_fingerprint = f;
                child_number = index;
                curve = lower node.curve;
              }))
      finish (ok key) (ok f) a b d e = (
        (ap lower h.0 ∙ unfold lower in refl, a.0, d, e),
        refl,
        refl,
        r,
        data_bytes,
        is,
        a.1,
        a.2,
        refl,
      )
      finish (ok key) (err x) a b d e = absurd b
      finish (err x) fingerprint a b d e = rw a.0 (r, data_bytes, is, a.1)

  index_first :
      (node : HdNode) (index : ℤ) (number : Result Bytes) (f : Bytes → Bytes)
      → NumberResult index number
      → ((b : Bytes)
          → InRange index
          → IsNumber index b
          → ChildResult c node index (derive_from_data c node index (f b)))
      → ChildResult c node index
          ((number >>= λ b. ok (f b)) >>= λ data_bytes. derive_from_data c node index data_bytes)
  index_first node index (ok b) f h k = k b h.0 h.1
  index_first node index (err e) f h k = rw h.0 h.1

  not_ed25519 : (curve : Text) → curve ≡ codes "secp256k1" → text_eq curve (codes "ed25519") ≡ false
  unfolding text_eq
  not_ed25519 curve e = ap (λ t. text_eq t (codes "ed25519")) e

  derive_child-secp :
      (node : HdNode) (index : ℤ)
      → node.curve ≡ codes "secp256k1"
      → derive_child c node index
        ≡ (child_data c node index >>= λ data_bytes. derive_from_data c node index data_bytes)
  unfolding derive_child
  derive_child-secp node index e = ground (arith, not_ed25519 node.curve e)

  hardened-IsData :
      (node : HdNode) (index : ℤ) (b : Bytes)
      → is_hardened index ≡ true
      → IsNumber index b
      → IsData c node index (0 ∷ (node.private_key ++ b))
  hardened-IsData node (pos n) b hardened e =
      (λ h. ap (λ t. 0 ∷ (node.private_key ++ t)) e, λ h. absurd (ground (arith, hardened)))
  hardened-IsData node (negsuc n) b hardened e = absurd e

  plain-IsData :
      (node : HdNode) (index : ℤ) (key b : Bytes)
      → is_hardened index ≡ false
      → c.compressed_public_key node.private_key ≡ some key
      → IsNumber index b
      → IsData c node index (key ++ b)
  plain-IsData node (pos n) key b plain k e =
      (λ h. absurd (ground (arith, plain)), λ h. (key, k, ap (λ t. key ++ t) e))
  plain-IsData node (negsuc n) key b plain k e = absurd e

  public_key_found :
      Works c
      → (node : HdNode) → WellFormed node
      → (key : Bytes) × (c.compressed_public_key node.private_key ≡ some key)
        × (public_key_bytes c node ≡ ok key)
  unfolding public_key_bytes text_eq
  public_key_found works node h = elim (Option-cases (c.compressed_public_key node.private_key)) [
    | inl e ↦ absurd (works.2 node.private_key h.1 e)
    | inr (key, e) ↦ (key, e, rw (h.0, e) refl)
  ]

  -- The child of a well-formed node of secp256k1 is well formed: its private key is in range and not
  -- zero, it is one deeper, and it has the index. Its key is the sum of the node's key and of the left
  -- half of the digest modulo the order, its chain code the right half; the digest is that of a zero
  -- and the private key for a hardened index, of the public key for another, and of the index. An index
  -- of more than four bytes, or below zero, is refused with OverflowError and nothing else is; for an
  -- index in range, a digest that gives no key, and no other, is refused with ValueError: one whose left
  -- half is not below the order, or leaves the sum zero. This holds where HMAC-SHA512 gives 64 bytes, RIPEMD-160 is there, and the key library
  -- takes the curve's private keys.
  pub derive_child_result :
      Works c
      → (node : HdNode) (index : ℤ) → WellFormed node
      → ChildResult c node index (derive_child c node index)
  unfolding child_data
  derive_child_result works node index h =
      rw (derive_child-secp node index h.0) (elim (Bool-cases (is_hardened index)) [
        | inl hardened ↦ rw hardened (
            index_first node index (index_bytes index) (λ b. 0 ∷ (node.private_key ++ b))
              (index_bytes_result index)
              (λ b r e.
                from_data works node index (0 ∷ (node.private_key ++ b)) h r
                  (hardened-IsData node index b hardened e)))
        | inr plain ↦
            let (key, k, p) = public_key_found works node h in
            rw (plain, p)
              (index_first node index (index_bytes index) (λ b. key ++ b) (index_bytes_result index)
                (λ b r e.
                  from_data works node index (key ++ b) h r
                    (plain-IsData node index key b plain k e)))
      ])
