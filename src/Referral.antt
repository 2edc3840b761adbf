-- ===== src/Referral.antt =====
-- core/refref_referral_engine.py. Floating-point amounts are the parameter `Amounts`; the hexadecimal
-- SHA-256 of a text and the clock's text are arguments, and the times in the records are left out.
pub mod Credit
mod Tests
use piso_chain.Base.{
  ℕ, ◌+◌, Bool, true, false, ◌&&◌, Option, none, some, List, [], ◌∷◌, ◌++◌, length, take, Text,
  text_eq, text_key, if◌then◌else◌,
}
use piso_chain.Text.{codes, lower, upper}
use piso_chain.Dict.{Dict, lookup, insert, contains}

-- The amounts, 0.0, 10.0, 50.0, and their sum.
pub record Amounts : Type 1 where
  pub Amount : Type 0
  pub zero_piso : Amount
  pub ten_piso : Amount
  pub fifty_piso : Amount
  pub add : Amount → Amount → Amount

module _ (amounts : Amounts) where
  pub record Campaign : Type 0 where
    pub campaign_id : Text
    pub name : Text
    pub reward_piso : amounts.Amount
    pub reward_type : Text
    pub description : Text
    pub active : Bool

  pub record Referral : Type 0 where
    pub referral_code : Text
    pub referrer_address : Text
    pub campaign_id : Text
    pub total_clicks : ℕ
    pub total_conversions : ℕ
    pub total_rewards_earned_piso : amounts.Amount

  pub record Conversion : Type 0 where
    pub conversion_id : Text
    pub referral_code : Text
    pub referrer_address : Text
    pub referred_user : Text
    pub campaign_id : Text
    pub reward_piso : amounts.Amount
    pub tx_hash : Text

  pub record ReferralEngine : Type 0 where
    pub campaigns : Dict Text Campaign
    pub referral_codes : Dict Text Referral
    pub conversions : List Conversion

  module _ (hexdigest : Text → Text) where
    unfoldable pub create_campaign :
        Text → Text → amounts.Amount → Text → Text → ReferralEngine → ReferralEngine × Campaign
    create_campaign clock campaign_name reward_piso reward_type description engine =
        let campaign_id = codes "CMP-" ++ take 8 (hexdigest (campaign_name ++ b'-' ∷ clock)) in
        let campaign : Campaign = record {
          campaign_id = campaign_id;
          name = campaign_name;
          reward_piso = reward_piso;
          reward_type = reward_type;
          description = description;
          active = true;
        } in
        (record engine { campaigns = insert campaign_id campaign engine.campaigns }, campaign)

    unfoldable pub init_engine : Text → ReferralEngine
    init_engine clock =
        (create_campaign clock (codes "Validator Node Onboarding") amounts.fifty_piso
          (codes "FIXED") (codes "Earn 50 PISO for every new active validator node referred.")
          (record { campaigns = []; referral_codes = []; conversions = [] })).0

    unfoldable pub referral_code_of : Text → Text → Text
    referral_code_of ref_addr clock =
        codes "PISO-REF-" ++ upper (take 6 (hexdigest (ref_addr ++ b'-' ∷ clock)))

    abbrev first_key : Dict Text Campaign → Option Text
    first_key [] = none
    first_key ((key, campaign) ∷ campaigns) = some key

    -- `selected_campaign`: the empty text is no id, and `none` is the IndexError without a campaign
    unfoldable pub selected_campaign : Option Text → Dict Text Campaign → Option Text
    selected_campaign none campaigns = first_key campaigns
    selected_campaign (some []) campaigns = first_key campaigns
    selected_campaign (some (c ∷ id)) campaigns =
        if contains (c ∷ id) campaigns then some (c ∷ id) else first_key campaigns

    abbrev pub new_referral : Text → Text → Text → Referral
    new_referral ref_code ref_addr campaign_id = record {
      referral_code = ref_code;
      referrer_address = ref_addr;
      campaign_id = campaign_id;
      total_clicks = 0;
      total_conversions = 0;
      total_rewards_earned_piso = amounts.zero_piso;
    }

    -- from the choice of the campaign
    unfoldable pub store_referral :
        Text → Text → Option Text → ReferralEngine → ReferralEngine × Option Referral
    store_referral ref_code ref_addr none engine = (engine, none)
    store_referral ref_code ref_addr (some campaign_id) engine =
        let stored = new_referral ref_code ref_addr campaign_id in
        (
          record engine { referral_codes = insert ref_code stored engine.referral_codes },
          some stored,
        )

    unfoldable pub generate_referral_code :
        Text → Text → Option Text → ReferralEngine → ReferralEngine × Option Referral
    generate_referral_code clock referrer_address campaign_id engine =
        let ref_addr = lower referrer_address in
        store_referral (referral_code_of ref_addr clock) ref_addr
          (selected_campaign campaign_id engine.campaigns) engine

    -- `campaign.get("reward_piso", 10.0)`
    unfoldable pub reward_of : Option Campaign → amounts.Amount
    reward_of none = amounts.ten_piso
    reward_of (some campaign) = campaign.reward_piso

    unfoldable pub credited : amounts.Amount → Referral → Referral
    credited reward_piso referral = record referral {
      total_conversions = referral.total_conversions + 1;
      total_rewards_earned_piso = amounts.add referral.total_rewards_earned_piso reward_piso;
    }

    unfoldable pub conversion_event :
        Text → Text → Text → Text → amounts.Amount → Referral → Conversion
    conversion_event clock code referred_user_address transaction_hash reward_piso referral =
        record {
          conversion_id =
              codes "CNV-"
              ++ take 8 (hexdigest (code ++ b'-' ∷ (referred_user_address ++ b'-' ∷ clock)));
          referral_code = code;
          referrer_address = referral.referrer_address;
          referred_user = lower referred_user_address;
          campaign_id = referral.campaign_id;
          reward_piso = reward_piso;
          tx_hash = transaction_hash;
        }

    -- from the test on the code; `none` is the answer that the code is not found
    unfoldable pub track_found :
        Text
        → Text
        → Text
        → Text
        → ReferralEngine
        → Option Referral
        → ReferralEngine × Option Conversion
    track_found clock code referred_user_address transaction_hash engine none = (engine, none)
    track_found clock code referred_user_address transaction_hash engine (some referral) =
        let reward_piso = reward_of (lookup referral.campaign_id engine.campaigns) in
        let event =
          conversion_event clock code referred_user_address transaction_hash reward_piso referral in
        (
          record engine {
            referral_codes = insert code (credited reward_piso referral) engine.referral_codes;
            conversions = engine.conversions ++ event ∷ [];
          },
          some event,
        )

    unfoldable pub track_conversion :
        Text → Text → Text → Text → ReferralEngine → ReferralEngine × Option Conversion
    track_conversion clock code referred_user_address transaction_hash engine =
        track_found clock code referred_user_address transaction_hash engine
          (lookup code engine.referral_codes)

  -- `user_codes`
  unfoldable pub codes_of : Text → Dict Text Referral → List Referral
  codes_of ref_addr [] = []
  codes_of ref_addr ((code, referral) ∷ referrals) =
      let rest = codes_of ref_addr referrals in
      if text_eq referral.referrer_address ref_addr then referral ∷ rest else rest

  -- the sum of the rewards of the codes, from an amount on
  unfoldable pub total_earned : amounts.Amount → List Referral → amounts.Amount
  total_earned sum [] = sum
  total_earned sum (referral ∷ referrals) =
      total_earned (amounts.add sum referral.total_rewards_earned_piso) referrals

  unfoldable pub total_convs : List Referral → ℕ
  total_convs [] = 0
  total_convs (referral ∷ referrals) = referral.total_conversions + total_convs referrals

  pub record ReferrerStats : Type 0 where
    pub referrer_address : Text
    pub active_codes : ℕ
    pub codes_held : List Referral
    pub total_conversions : ℕ
    pub total_rewards_earned_piso : amounts.Amount

  -- `get_referral_stats` of a referrer
  unfoldable pub get_referral_stats : Text → ReferralEngine → ReferrerStats
  get_referral_stats address engine =
      let ref_addr = lower address in
      let user_codes = codes_of ref_addr engine.referral_codes in
      record {
        referrer_address = ref_addr;
        active_codes = length user_codes;
        codes_held = user_codes;
        total_conversions = total_convs user_codes;
        total_rewards_earned_piso = total_earned amounts.zero_piso user_codes;
      }
