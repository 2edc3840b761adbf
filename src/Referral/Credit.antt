-- ===== src/Referral/Credit.antt =====
-- What each referral code is credited with, over every sequence of calls.
use piso_chain.Base.{
  ℕ, ◌+◌, ◌≡◌, refl, sym, ap, ◌∙◌, true, false, Bool-cases, inl, inr, Option, none, some, List, [],
  ◌∷◌, ◌++◌, Text, text_eq, text_eq_iff, text_key, subst, arith, if◌then◌else◌,
}
use piso_chain.Text.{lower}
use piso_chain.Dict.{lookup}
use piso_chain.Dict.Laws.{lookup-insert}
use piso_chain.Referral.{
  Amounts, Referral, Conversion, ReferralEngine, create_campaign, init_engine, referral_code_of,
  selected_campaign, new_referral, store_referral, generate_referral_code, reward_of, credited,
  conversion_event, track_found, track_conversion,
}

module _ (amounts : Amounts) (hexdigest : Text → Text) where
  -- A call that changes the engine; a new referral code is not one that the engine has.
  pub data Step (engine : ReferralEngine amounts) : ReferralEngine amounts → Type 0 where
    created :
        (clock campaign_name reward_type description : Text) (reward_piso : amounts.Amount)
        → Step engine
            (create_campaign amounts hexdigest clock campaign_name reward_piso reward_type
              description engine).0
    generated :
        (clock referrer_address : Text) (campaign_id : Option Text)
        → lookup
            (referral_code_of amounts hexdigest (lower referrer_address) clock)
            engine.referral_codes
          ≡ none
        → Step engine
            (generate_referral_code amounts hexdigest clock referrer_address campaign_id engine).0
    tracked :
        (clock code referred_user_address transaction_hash : Text)
        → Step engine
            (track_conversion amounts hexdigest clock code referred_user_address transaction_hash
              engine).0

  pub data Reach : ReferralEngine amounts → Type 0 where
    initial : (clock : Text) → Reach (init_engine amounts hexdigest clock)
    next : {before after : ReferralEngine amounts} → Reach before → Step before after → Reach after

  -- the conversions of a code
  abbrev pub count_conversions : Text → List (Conversion amounts) → ℕ
  count_conversions code [] = 0
  count_conversions code (c ∷ conversions) =
      let rest = count_conversions code conversions in
      if text_eq c.referral_code code then rest + 1 else rest

  -- their rewards, added in their order to an amount
  abbrev pub sum_rewards : Text → amounts.Amount → List (Conversion amounts) → amounts.Amount
  sum_rewards code sum [] = sum
  sum_rewards code sum (c ∷ conversions) =
      sum_rewards code (if text_eq c.referral_code code then amounts.add sum c.reward_piso else sum)
        conversions

  count_conversions-snoc :
      (code : Text) (conversions : List (Conversion amounts)) (c : Conversion amounts)
      → count_conversions code (conversions ++ c ∷ []) ≡ (
          if text_eq c.referral_code code
          then count_conversions code conversions + 1
          else count_conversions code conversions)
  count_conversions-snoc code [] c = refl
  count_conversions-snoc code (d ∷ conversions) c =
      ground (arith, count_conversions-snoc code conversions c)

  sum_rewards-snoc :
      (code : Text) (sum : amounts.Amount) (conversions : List (Conversion amounts))
      (c : Conversion amounts)
      → sum_rewards code sum (conversions ++ c ∷ []) ≡ (
          if text_eq c.referral_code code
          then amounts.add (sum_rewards code sum conversions) c.reward_piso
          else sum_rewards code sum conversions)
  sum_rewards-snoc code sum [] c = elim (Bool-cases (text_eq c.referral_code code)) [
    | inl same ↦ rw same refl
    | inr other ↦ rw other refl
  ]
  sum_rewards-snoc code sum (d ∷ conversions) c =
      sum_rewards-snoc code
        (if text_eq d.referral_code code then amounts.add sum d.reward_piso else sum) conversions c

  -- A code has the credit of its conversions, and a code that is not there has none.
  abbrev pub HasCredit : Text → List (Conversion amounts) → Option (Referral amounts) → Type 0
  HasCredit code conversions none =
      (count_conversions code conversions ≡ 0)
      × (sum_rewards code amounts.zero_piso conversions ≡ amounts.zero_piso)
  HasCredit code conversions (some referral) =
      (referral.total_conversions ≡ count_conversions code conversions)
      × (referral.total_rewards_earned_piso ≡ sum_rewards code amounts.zero_piso conversions)

  abbrev AllCredited : ReferralEngine amounts → Type 0
  AllCredited engine =
      (code : Text) → HasCredit code engine.conversions (lookup code engine.referral_codes)

  -- a new code
  stored-AllCredited :
      (ref_code ref_addr : Text) (id : Option Text) (engine : ReferralEngine amounts)
      → lookup ref_code engine.referral_codes ≡ none
      → AllCredited engine
      → AllCredited (store_referral amounts hexdigest ref_code ref_addr id engine).0
  unfolding store_referral
  stored-AllCredited ref_code ref_addr none engine fresh h code = h code
  stored-AllCredited ref_code ref_addr (some id) engine fresh h code =
      let stored = new_referral amounts hexdigest ref_code ref_addr id in
      rw (lookup-insert ref_code code stored engine.referral_codes)
        (elim (Bool-cases (text_eq ref_code code)) [
          | inl same ↦
              let none_here : HasCredit ref_code engine.conversions none =
                subst (HasCredit ref_code engine.conversions) fresh (h ref_code) in
              rw same (
                subst (λ c. HasCredit c engine.conversions (some stored))
                  ((text_eq_iff ref_code code).0 same) (sym none_here.0, sym none_here.1))
          | inr other ↦ rw other (h code)
        ])

  -- a conversion, for its code and for another one
  HasCredit-same :
      (conversions : List (Conversion amounts)) (c : Conversion amounts)
      (referral : Referral amounts)
      → HasCredit c.referral_code conversions (some referral)
      → HasCredit c.referral_code
          (conversions ++ c ∷ [])
          (some (credited amounts hexdigest c.reward_piso referral))
  unfolding credited
  HasCredit-same conversions c referral h =
      let code = c.referral_code in
      let itself : text_eq code code ≡ true = (text_eq_iff code code).1 refl in
      (
        ap (λ n. n + 1) h.0 ∙ sym (count_conversions-snoc code conversions c ∙ rw itself refl),
        ap (λ a. amounts.add a c.reward_piso) h.1
            ∙ sym (sum_rewards-snoc code amounts.zero_piso conversions c ∙ rw itself refl),
      )

  HasCredit-other :
      (k : Text) (conversions : List (Conversion amounts)) (c : Conversion amounts)
      (o : Option (Referral amounts))
      → text_eq c.referral_code k ≡ false
      → HasCredit k conversions o
      → HasCredit k (conversions ++ c ∷ []) o
  HasCredit-other k conversions c none other h = (
    count_conversions-snoc k conversions c ∙ rw other h.0,
    sum_rewards-snoc k amounts.zero_piso conversions c ∙ rw other h.1,
  )
  HasCredit-other k conversions c (some referral) other h = (
    h.0 ∙ sym (count_conversions-snoc k conversions c ∙ rw other refl),
    h.1 ∙ sym (sum_rewards-snoc k amounts.zero_piso conversions c ∙ rw other refl),
  )

  tracked-AllCredited :
      (clock code user tx : Text) (engine : ReferralEngine amounts)
      (found : Option (Referral amounts))
      → lookup code engine.referral_codes ≡ found
      → AllCredited engine
      → AllCredited (track_found amounts hexdigest clock code user tx engine found).0
  unfolding track_found conversion_event
  tracked-AllCredited clock code user tx engine none e h k = h k
  tracked-AllCredited clock code user tx engine (some referral) e h k =
      let reward = reward_of amounts hexdigest (lookup referral.campaign_id engine.campaigns) in
      let event = conversion_event amounts hexdigest clock code user tx reward referral in
      let after = credited amounts hexdigest reward referral in
      let here : HasCredit code engine.conversions (some referral) =
        subst (HasCredit code engine.conversions) e (h code) in
      let done = HasCredit-same engine.conversions event referral here in
      rw (lookup-insert code k after engine.referral_codes) (elim (Bool-cases (text_eq code k)) [
        | inl same ↦ rw same (
            subst (λ c. HasCredit c (engine.conversions ++ event ∷ []) (some after))
              ((text_eq_iff code k).0 same) done)
        | inr other ↦ rw other (
            HasCredit-other k engine.conversions event (lookup k engine.referral_codes) other (h k))
      ])

  Step-AllCredited :
      {before after : ReferralEngine amounts}
      → Step before after
      → AllCredited before
      → AllCredited after
  Step-AllCredited (created clock campaign_name reward_type description reward_piso) h =
      unfold create_campaign in h
  Step-AllCredited {before = engine} (generated clock referrer_address campaign_id fresh) h =
      unfold generate_referral_code in
      stored-AllCredited (referral_code_of amounts hexdigest (lower referrer_address) clock)
        (lower referrer_address) (selected_campaign amounts hexdigest campaign_id engine.campaigns)
        engine fresh h
  Step-AllCredited {before = engine} (tracked clock code user tx) h =
      unfold track_conversion in
      tracked-AllCredited clock code user tx engine (lookup code engine.referral_codes) refl h

  -- From a new engine, over any campaigns, conversions and new referral codes, as long as no code is
  -- generated that is there already: each code counts its conversions, and has earned their rewards,
  -- added up in their order; so the sum holds of floating-point amounts, too. A code that is not there
  -- has no conversions.
  pub credited_exactly :
      {engine : ReferralEngine amounts}
      → Reach engine
      → (code : Text) → HasCredit code engine.conversions (lookup code engine.referral_codes)
  credited_exactly (initial clock) code = unfold init_engine create_campaign lookup in (refl, refl)
  credited_exactly (next r st) code = Step-AllCredited st (credited_exactly r) code
