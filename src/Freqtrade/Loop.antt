-- ===== src/Freqtrade/Loop.antt =====
-- The loop over the new trades: the ids that it adds to the submitted ones.
use piso_chain.Base.{
  ℕ, ◌≡◌, inl, inr, refl, ap, true, false, Bool-cases, List, [], ◌∷◌, ◌++◌, arith, ◌==◌,
}
use piso_chain.Freqtrade.{Library, Trade, is_in, is_closed, closed_only, new_trades}

-- No id stands twice.
abbrev pub AllDifferent : List ℕ → Type 0
AllDifferent [] = Unit
AllDifferent (x ∷ ids) = (is_in x ids ≡ false) × AllDifferent ids

pub is_in-append : (x : ℕ) (xs ys : List ℕ) → is_in x xs ≡ true → is_in x (xs ++ ys) ≡ true
unfolding is_in
is_in-append x [] ys h = cc
is_in-append x (z ∷ xs) ys h = ground (arith, is_in-append x xs ys)

pub is_in-append_right : (x : ℕ) (xs ys : List ℕ) → is_in x ys ≡ true → is_in x (xs ++ ys) ≡ true
unfolding is_in
is_in-append_right x [] ys h = h
is_in-append_right x (z ∷ xs) ys h = ground (arith, is_in-append_right x xs ys h)

pub append-snoc : (x : ℕ) (xs ys : List ℕ) → (xs ++ x ∷ []) ++ ys ≡ xs ++ x ∷ ys
append-snoc x [] ys = refl
append-snoc x (z ∷ xs) ys = ap (λ t. z ∷ t) (append-snoc x xs ys)

pub append_nil : (xs : List ℕ) → xs ++ [] ≡ xs
append_nil [] = refl
append_nil (x ∷ xs) = ap (λ t. x ∷ t) (append_nil xs)

is_in-snoc_ne :
    (x y : ℕ) (xs : List ℕ) → (x == y) ≡ false → is_in y xs ≡ false → is_in y (xs ++ x ∷ []) ≡ false
unfolding is_in
is_in-snoc_ne x y [] ne h = ground arith
is_in-snoc_ne x y (z ∷ xs) ne h = ground (arith, is_in-snoc_ne x y xs ne)

pub snoc-AllDifferent :
    (x : ℕ) (xs : List ℕ) → is_in x xs ≡ false → AllDifferent xs → AllDifferent (xs ++ x ∷ [])
unfolding is_in
snoc-AllDifferent x [] h d = (refl, tt)
snoc-AllDifferent x (z ∷ xs) h d =
    (is_in-snoc_ne x z xs (ground arith) d.0, snoc-AllDifferent x xs (ground arith) d.1)

module _ (library : Library) where
  abbrev pub ids_of : List (Trade library) → List ℕ
  ids_of [] = []
  ids_of (t ∷ trades) = t.trade_id ∷ ids_of trades

  -- The trades have different ids, none of them among the given ones.
  abbrev pub AllFresh : List ℕ → List (Trade library) → Type 0
  AllFresh ids [] = Unit
  AllFresh ids (t ∷ trades) =
      (is_in t.trade_id ids ≡ false)
      × (is_in t.trade_id (ids_of trades) ≡ false)
      × AllFresh ids trades

  pub AllFresh-snoc :
      (x : ℕ) (ids : List ℕ) (trades : List (Trade library))
      → is_in x (ids_of trades) ≡ false
      → AllFresh ids trades
      → AllFresh (ids ++ x ∷ []) trades
  unfolding is_in
  AllFresh-snoc x ids [] h fresh = tt
  AllFresh-snoc x ids (t ∷ trades) h fresh = (
    is_in-snoc_ne x t.trade_id ids (ground arith) fresh.0,
    fresh.1,
    AllFresh-snoc x ids trades (ground arith) fresh.2,
  )

  is_in-closed_only :
      (x : ℕ) (trades : List (Trade library))
      → is_in x (ids_of trades) ≡ false
      → is_in x (ids_of (closed_only library trades)) ≡ false
  unfolding is_in closed_only
  is_in-closed_only x [] h = refl
  is_in-closed_only x (t ∷ trades) h = ground (arith, is_in-closed_only x trades)

  pub closed_only-AllDifferent :
      (trades : List (Trade library))
      → AllDifferent (ids_of trades)
      → AllDifferent (ids_of (closed_only library trades))
  unfolding closed_only
  closed_only-AllDifferent [] d = tt
  closed_only-AllDifferent (t ∷ trades) d = elim (Bool-cases (is_closed t.is_open)) [
    | inl closed ↦
        rw closed (is_in-closed_only t.trade_id trades d.0, closed_only-AllDifferent trades d.1)
    | inr running ↦ rw running (closed_only-AllDifferent trades d.1)
  ]

  is_in-new_trades :
      (x : ℕ) (ids : List ℕ) (trades : List (Trade library))
      → is_in x (ids_of trades) ≡ false
      → is_in x (ids_of (new_trades library ids trades)) ≡ false
  unfolding is_in new_trades
  is_in-new_trades x ids [] h = refl
  is_in-new_trades x ids (t ∷ trades) h = ground (arith, is_in-new_trades x ids trades)

  pub new_trades-AllFresh :
      (ids : List ℕ) (trades : List (Trade library))
      → AllDifferent (ids_of trades)
      → AllFresh ids (new_trades library ids trades)
  unfolding new_trades
  new_trades-AllFresh ids [] d = tt
  new_trades-AllFresh ids (t ∷ trades) d = elim (Bool-cases (is_in t.trade_id ids)) [
    | inl old ↦ rw old (new_trades-AllFresh ids trades d.1)
    | inr new ↦
        rw new (new, is_in-new_trades t.trade_id ids trades d.0, new_trades-AllFresh ids trades d.1)
  ]
