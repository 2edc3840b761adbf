-- ===== src/Dict/Laws.antt =====
-- The laws of a dict: each reading operation after each writing one.
use piso_chain.Base.{
  ◌≡◌, refl, Bool, true, false, Option, none, some, [], ◌∷◌, arith, if◌then◌else◌, EqKey,
}
use piso_chain.Dict.{Dict, lookup, contains, get_default, insert, erase}

pub beq_refl {ℓ} : {K : Type ℓ} ⦃e : EqKey K⦄ (k : K) → e.beq k k ≡ true
beq_refl ⦃e⦄ k = (e.beq_iff k k).1 refl

abbrev pub or_else {ℓ} : {V : Type ℓ} → V → Option V → V
or_else x none = x
or_else x (some v) = v

abbrev pub is_some {ℓ} : {V : Type ℓ} → Option V → Bool
is_some none = false
is_some (some v) = true

module _ {ℓ κ} {K : Type ℓ} {V : Type κ} ⦃e : EqKey K⦄ where
  pub lookup-insert :
      (k j : K) (v : V) (d : Dict K V)
      → lookup j (insert k v d) ≡ (if e.beq k j then some v else lookup j d)
  unfolding lookup insert
  lookup-insert k j v [] = refl
  lookup-insert k j v ((i, w) ∷ d) =
      ground (arith, e.beq_iff k j, e.beq_iff i k, e.beq_iff i j, lookup-insert k j v d)

  pub get_default-eq : (x : V) (k : K) (d : Dict K V) → get_default x k d ≡ or_else x (lookup k d)
  unfolding get_default lookup
  get_default-eq x k [] = refl
  get_default-eq x k ((i, w) ∷ d) = ground (arith, get_default-eq x k d)

  pub contains-eq : (k : K) (d : Dict K V) → contains k d ≡ is_some (lookup k d)
  unfolding contains lookup
  contains-eq k [] = refl
  contains-eq k ((i, w) ∷ d) = ground (arith, contains-eq k d)

  pub get_default-insert :
      (x : V) (k j : K) (v : V) (d : Dict K V)
      → get_default x j (insert k v d) ≡ (if e.beq k j then v else get_default x j d)
  unfolding get_default insert
  get_default-insert x k j v [] = refl
  get_default-insert x k j v ((i, w) ∷ d) =
      ground (arith, e.beq_iff k j, e.beq_iff i k, e.beq_iff i j, get_default-insert x k j v d)

  -- A key that is removed is the first of its name: another key keeps its value.
  pub lookup-erase_ne :
      (k j : K) (d : Dict K V) → e.beq k j ≡ false → lookup j (erase k d) ≡ lookup j d
  unfolding lookup erase
  lookup-erase_ne k j [] h = refl
  lookup-erase_ne k j ((i, w) ∷ d) h =
      ground (arith, e.beq_iff k j, e.beq_iff i k, e.beq_iff i j, lookup-erase_ne k j d h)

  pub contains-insert :
      (k j : K) (v : V) (d : Dict K V)
      → contains j (insert k v d) ≡ (if e.beq k j then true else contains j d)
  unfolding contains insert
  contains-insert k j v [] = refl
  contains-insert k j v ((i, w) ∷ d) =
      ground (arith, e.beq_iff k j, e.beq_iff i k, e.beq_iff i j, contains-insert k j v d)

  pub insert-insert : (k : K) (v w : V) (d : Dict K V) → insert k v (insert k w d) ≡ insert k v d
  unfolding insert
  insert-insert k v w [] = ground (arith, e.beq_iff k k)
  insert-insert k v w ((i, x) ∷ d) = ground (arith, e.beq_iff i k, insert-insert k v w d)

  -- A key that was new is gone after it is removed again.
  pub erase-insert_new :
      (k : K) (v : V) (d : Dict K V) → lookup k d ≡ none → erase k (insert k v d) ≡ d
  unfolding lookup erase insert
  erase-insert_new k v [] h = ground (arith, e.beq_iff k k)
  erase-insert_new k v ((i, x) ∷ d) h = ground (arith, e.beq_iff i k, erase-insert_new k v d)
