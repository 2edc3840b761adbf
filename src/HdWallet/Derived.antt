-- ===== src/HdWallet/Derived.antt =====
-- What a run of `derive_child` along a path ends with.
use piso_chain.Base.{
  take, drop, ◌+◌, ◌≡◌, ◌≢◌, refl, ap, ◌∙◌, true, false, Bool-cases, ◌⊎◌, inl, inr, List, [], ◌∷◌,
  ◌++◌, All, length, Text, text_eq, arith,
}
use piso_chain.Int.{ℤ}
use piso_chain.Bytes.{Bytes}
use piso_chain.Text.{codes, lower}
use piso_chain.HdWallet.{
  Crypto, HdNode, Error, Result, ok, err, ◌>>=◌, is_hardened, child_data, child_private_key,
  get_fingerprint, derive_from_data, derive_child, derive_indexes,
}
use piso_chain.HdWallet.Nodes.{WellFormed, Works, InRange, ChildOf, ChildResult}
use piso_chain.HdWallet.Child.{derive_child_result}

-- Each index in turn gives the child of the node before it, down to the end, or to the first one that
-- is refused.
abbrev pub Steps : Crypto → HdNode → List ℤ → Result HdNode → Type 0
Steps c node [] r = r ≡ ok node
Steps c node (index ∷ indexes) r =
    ((e : Error) × (r ≡ err e) × ChildResult c node index (err e))
    ⊎ ((child : HdNode) × ChildOf c node index child × Steps c child indexes r)

-- The end of a path is well formed, as deep as the path is long, and every index was in range; the key
-- library raises nothing on the way.
abbrev pub Ends : HdNode → List ℤ → Result HdNode → Type 0
Ends node indexes (ok child) =
    WellFormed child × (child.depth ≡ node.depth + length indexes) × All InRange indexes
Ends node indexes (err e) = e ≢ Error.key_error

abbrev pub PathResult : Crypto → HdNode → List ℤ → Result HdNode → Type 0
PathResult c node indexes r = Steps c node indexes r × Ends node indexes r

-- Two paths, one behind the other, are derived as one.
pub derive_indexes-append :
    (c : Crypto) (node : HdNode) (xs ys : List ℤ)
    → derive_indexes c node (xs ++ ys)
      ≡ (derive_indexes c node xs >>= λ middle. derive_indexes c middle ys)
unfolding derive_indexes
derive_indexes-append c node [] ys = refl
derive_indexes-append c node (x ∷ xs) ys =
    from_child (derive_child c node x) (λ n. derive_indexes-append c n xs ys)
  where
    from_child :
        (child : Result HdNode)
        → ((n : HdNode)
            → derive_indexes c n (xs ++ ys)
              ≡ (derive_indexes c n xs >>= λ middle. derive_indexes c middle ys))
        → (child >>= λ n. derive_indexes c n (xs ++ ys))
          ≡ ((child >>= λ n. derive_indexes c n xs) >>= λ middle. derive_indexes c middle ys)
    from_child (ok n) h = h n
    from_child (err e) h = refl

module _ (c : Crypto) where
  derive_indexes-Ends :
      Works c
      → (node : HdNode) (indexes : List ℤ) → WellFormed node
      → Ends node indexes (derive_indexes c node indexes)
  unfolding derive_indexes
  derive_indexes-Ends works node [] h = (h, omega arith, tt)
  derive_indexes-Ends works node (index ∷ indexes) h =
      from_child (derive_child c node index) (derive_child_result c works node index h)
        (λ child w. derive_indexes-Ends works child indexes w)
    where
      extend :
          (child : HdNode) (r : Result HdNode)
          → child.depth ≡ node.depth + 1
          → InRange index
          → Ends child indexes r
          → Ends node (index ∷ indexes) r
      extend child (ok last) d range (w, e, rs) = (w, omega (arith, d, e), (range, rs))
      extend child (err e) d range p = p

      from_child :
          (r : Result HdNode)
          → ChildResult c node index r
          → ((child : HdNode)
              → WellFormed child
              → Ends child indexes (derive_indexes c child indexes))
          → Ends node (index ∷ indexes) (r >>= λ child. derive_indexes c child indexes)
      from_child (ok child) p k =
          extend child (derive_indexes c child indexes) p.1 p.3 (k child p.0)
      from_child (err Error.value_error) p k = λ e. cc
      from_child (err Error.overflow_error) p k = λ e. cc
      from_child (err Error.key_error) p k = absurd p

  derive_indexes-Steps :
      Works c
      → (node : HdNode) (indexes : List ℤ) → WellFormed node
      → Steps c node indexes (derive_indexes c node indexes)
  unfolding derive_indexes
  derive_indexes-Steps works node [] h = refl
  derive_indexes-Steps works node (index ∷ indexes) h =
      from_child (derive_child c node index) (derive_child_result c works node index h)
        (λ child w. derive_indexes-Steps works child indexes w)
    where
      from_child :
          (r : Result HdNode)
          → ChildResult c node index r
          → ((child : HdNode)
              → WellFormed child
              → Steps c child indexes (derive_indexes c child indexes))
          → Steps c node (index ∷ indexes) (r >>= λ child. derive_indexes c child indexes)
      from_child (ok child) p k = inr (child, p, k child p.0)
      from_child (err e) p k = inl (e, refl, p)

  -- A path from a well-formed node of secp256k1 is derived index by index, each from the node before,
  -- up to the first index that is refused. The end is well formed and deeper by the length of the path,
  -- if all its indices are in range and every digest gives a key; the key library never raises. This
  -- holds where HMAC-SHA512 gives 64 bytes, RIPEMD-160 is there, and the key library takes the curve's
  -- private keys.
  pub derive_indexes_result :
      Works c
      → (node : HdNode) (indexes : List ℤ) → WellFormed node
      → PathResult c node indexes (derive_indexes c node indexes)
  derive_indexes_result works node indexes h =
      (derive_indexes-Steps works node indexes h, derive_indexes-Ends works node indexes h)

  -- A child is on the curve of its parent.
  abbrev CurveKept : HdNode → Result HdNode → Type 0
  CurveKept node (ok child) = child.curve ≡ lower node.curve
  CurveKept node (err e) = Unit

  bind-CurveKept {ℓ} :
      {A : Type ℓ} (node : HdNode) (r : Result A) (f : A → Result HdNode)
      → ((a : A) → CurveKept node (f a))
      → CurveKept node (r >>= f)
  bind-CurveKept node (ok a) f h = h a
  bind-CurveKept node (err e) f h = tt

  derive_from_data-CurveKept :
      (node : HdNode) (index : ℤ) (data_bytes : Bytes)
      → CurveKept node (derive_from_data c node index data_bytes)
  unfolding derive_from_data
  derive_from_data-CurveKept node index data_bytes =
      let digest : Bytes = c.hmac_sha512 node.chain_code data_bytes in
      bind-CurveKept node (child_private_key c node (take 32 digest))
        (λ k. get_fingerprint c node >>= λ f. ok (record {
          private_key = k;
          chain_code = drop 32 digest;
          depth = node.depth + 1;
          parent_fingerprint = f;
          child_number = index;
          curve = lower node.curve;
        }))
        (λ k.
          bind-CurveKept node (get_fingerprint c node)
            (λ f. ok (record {
              private_key = k;
              chain_code = drop 32 digest;
              depth = node.depth + 1;
              parent_fingerprint = f;
              child_number = index;
              curve = lower node.curve;
            }))
            (λ f. refl))

  -- A child on ed25519 has a hardened index, and is on ed25519.
  HardenedResult : ℤ → Result HdNode → Type 0
  HardenedResult index (ok child) = (is_hardened index ≡ true) × (child.curve ≡ codes "ed25519")
  HardenedResult index (err e) = Unit

  is_ed25519 : (curve : Text) → curve ≡ codes "ed25519" → text_eq curve (codes "ed25519") ≡ true
  unfolding text_eq
  is_ed25519 curve e = ap (λ t. text_eq t (codes "ed25519")) e

  plain_refused :
      (node : HdNode) (index : ℤ)
      → node.curve ≡ codes "ed25519"
      → is_hardened index ≡ false
      → derive_child c node index ≡ err Error.value_error
  unfolding derive_child
  plain_refused node index e plain = ground (arith, is_ed25519 node.curve e)

  hardened_tried :
      (node : HdNode) (index : ℤ)
      → is_hardened index ≡ true
      → derive_child c node index
        ≡ (child_data c node index >>= λ d. derive_from_data c node index d)
  unfolding derive_child
  hardened_tried node index hardened = ground arith

  derive_child-IsHardened :
      (node : HdNode) (index : ℤ)
      → node.curve ≡ codes "ed25519"
      → HardenedResult index (derive_child c node index)
  unfolding HardenedResult
  derive_child-IsHardened node index e = elim (Bool-cases (is_hardened index)) [
    | inr plain ↦ rw (plain_refused node index e plain) tt
    | inl hardened ↦ rw (hardened_tried node index hardened) (
        kept hardened (child_data c node index >>= λ d. derive_from_data c node index d) (
          bind-CurveKept node (child_data c node index) (λ d. derive_from_data c node index d)
            (derive_from_data-CurveKept node index)))
  ]
    where
      kept :
          is_hardened index ≡ true → (r : Result HdNode) → CurveKept node r → HardenedResult index r
      kept hardened (ok child) k = (hardened, k ∙ ap lower e ∙ unfold lower in refl)
      kept hardened (err x) k = tt

  -- A path of ed25519 that is derived has hardened indices only.
  pub derive_indexes-IsHardened :
      (node child : HdNode) (indexes : List ℤ)
      → node.curve ≡ codes "ed25519"
      → derive_indexes c node indexes ≡ ok child
      → All (λ index. is_hardened index ≡ true) indexes
  unfolding derive_indexes HardenedResult
  derive_indexes-IsHardened node child [] e h = tt
  derive_indexes-IsHardened node child (index ∷ indexes) e h =
      from_child (derive_child c node index) (derive_child-IsHardened node index e) h
        (λ next f g. derive_indexes-IsHardened next child indexes f g)
    where
      from_child :
          (r : Result HdNode)
          → HardenedResult index r
          → (r >>= λ next. derive_indexes c next indexes) ≡ ok child
          → ((next : HdNode)
              → next.curve ≡ codes "ed25519"
              → derive_indexes c next indexes ≡ ok child
              → All (λ i. is_hardened i ≡ true) indexes)
          → All (λ i. is_hardened i ≡ true) (index ∷ indexes)
      from_child (ok next) p g k = (p.0, k next p.1 g)
      from_child (err x) p g k = cc
