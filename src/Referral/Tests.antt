-- ===== src/Referral/Tests.antt =====
-- One code with two conversions, amounts being numbers and the digest the text itself.
use piso_chain.Base.{ℕ, ◌+◌, ◌≡◌, refl, none, Text, text_eq, text_key}
use piso_chain.Text.{codes, lower, upper}
use piso_chain.Dict.{lookup, insert}
use piso_chain.Referral.{
  Amounts, ReferralEngine, create_campaign, init_engine, referral_code_of, selected_campaign,
  store_referral, generate_referral_code, reward_of, credited, track_found, track_conversion,
  get_referral_stats, codes_of, total_earned, total_convs,
}
use piso_chain.Referral.Credit.{Reach, Step, HasCredit, credited_exactly}

abbrev amounts : Amounts
amounts = record { Amount = ℕ; zero_piso = 0; ten_piso = 10; fifty_piso = 50; add = λ a b. a + b }

abbrev hexdigest : Text → Text
hexdigest t = t

abbrev start : ReferralEngine amounts
start = init_engine amounts hexdigest (codes "0")

abbrev one : ReferralEngine amounts
one = (generate_referral_code amounts hexdigest (codes "1") (codes "0xAbcd") none start).0

abbrev code : Text
code = referral_code_of amounts hexdigest (codes "0xabcd") (codes "1")

abbrev two : ReferralEngine amounts
two = (track_conversion amounts hexdigest (codes "2") code (codes "0xB") (codes "0x1") one).0

-- The same conversion is credited as often as it is tracked.
abbrev three : ReferralEngine amounts
three = (track_conversion amounts hexdigest (codes "3") code (codes "0xB") (codes "0x1") two).0

code_text : code ≡ codes "PISO-REF-0XABCD"
unfolding referral_code_of upper
code_text = refl

stats_of_three :
    let stats = get_referral_stats amounts (codes "0xABCD") three in
    (stats.total_conversions ≡ 2) × (stats.total_rewards_earned_piso ≡ 100)
unfolding get_referral_stats codes_of total_earned total_convs track_conversion track_found credited
    reward_of generate_referral_code store_referral selected_campaign referral_code_of init_engine
    create_campaign lower upper lookup insert text_eq
stats_of_three = (refl, refl)

-- The first six digits of a digest that come again take the credit of the code away.
credit_lost :
    let again =
      (generate_referral_code amounts hexdigest (codes "1") (codes "0xAbcd") none three).0 in
    (get_referral_stats amounts (codes "0xABCD") again).total_conversions ≡ 0
unfolding get_referral_stats codes_of total_convs track_conversion track_found credited reward_of
    generate_referral_code store_referral selected_campaign referral_code_of init_engine
    create_campaign lower upper lookup insert text_eq
credit_lost = refl

credited_exactly_example :
    HasCredit amounts hexdigest code three.conversions (lookup code three.referral_codes)
unfolding init_engine create_campaign lookup
credited_exactly_example =
    credited_exactly amounts hexdigest
      (Reach.next
        (Reach.next
          (Reach.next (Reach.initial (codes "0"))
            (Step.generated (codes "1") (codes "0xAbcd") none refl))
          (Step.tracked (codes "2") code (codes "0xB") (codes "0x1")))
        (Step.tracked (codes "3") code (codes "0xB") (codes "0x1")))
      code
