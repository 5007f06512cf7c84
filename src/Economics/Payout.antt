-- ===== src/Economics/Payout.antt =====
-- What `era_payout` of xx-economics/src/inflation.rs pays.
use xxchain.Common.{ℕ, ◌+◌, ◌-◌, ◌≤◌, ◌≡◌, refl, ap, ◌∙◌, Option, none, some, List, ◌∷◌, arith, min}
use xxchain.Frame.Currency.{Currency}
use xxchain.Frame.Perbill.{Perbill, IsPerbill, billion}
use xxchain.Economics.Pallet.{Config, Economics, IdealInterestPoint, InflationFixedParams}
use xxchain.Economics.Inflation.{
  get_ideal_interest, compute_total_stakeable, update_liquidity_rewards, max_inflation,
  inflation_of, milliseconds_per_year, payout_at, era_payout,
}
use xxchain.Economics.Interest.{AllWithin, get_ideal_interest-IsWithin}

module _ (config : Config) (perbill : Perbill) {Bank : Type 0} (currency : Currency Bank)
    (total_custody : Bank → ℕ) where
  open perbill use {from_rational, times}

  -- A payout for an era: validators and rest together are the part of the stakeable amount at the
  -- maximal inflation for the length of the era, validators get at least the part at the minimal
  -- inflation, and the liquidity rewards lose what the pool of ideal stake earns, as far as they go.
  pub record Pays (ideal_interest total_issuance era_duration_millis : ℕ) (s : Economics Bank)
      (paid : (ℕ × ℕ) × Economics Bank) : Type 0 where
    pub whole :
        paid.0.0 + paid.0.1
        ≡ times (from_rational era_duration_millis milliseconds_per_year) (
            times
              (max_inflation config perbill ideal_interest s.inflation_params)
              (compute_total_stakeable config perbill currency total_custody s total_issuance))
    pub least :
        times (from_rational era_duration_millis milliseconds_per_year) (
          times s.inflation_params.min_inflation
            (compute_total_stakeable config perbill currency total_custody s total_issuance))
        ≤ paid.0.0
    pub bounded : paid.0.0 + paid.0.1 ≤ total_issuance
    pub rewards : paid.1 ≡ record s {
      liquidity_rewards =
          s.liquidity_rewards
          - times
              (from_rational era_duration_millis milliseconds_per_year)
              (times ideal_interest s.ideal_liquidity_stake);
    }

module _ (config : Config) (perbill : Perbill) (laws : IsPerbill perbill) where
  open perbill use {from_rational, times, times_ratio, saturating_add, saturating_sub}

  -- The inflation is between the minimal and the maximal one, where these are ordered.
  inflation_of-between :
      (stake_ratio max_ : ℕ) (params : InflationFixedParams)
      → params.min_inflation ≤ max_
      → max_ ≤ billion
      → (params.min_inflation ≤ inflation_of config perbill stake_ratio max_ params)
        × (inflation_of config perbill stake_ratio max_ params ≤ max_)
  inflation_of-between stake_ratio max_ params le small =
      let ratio = perbill.compute_inflation stake_ratio params.ideal_stake params.falloff in
      let gap = saturating_sub max_ params.min_inflation in
      ground (
        arith,
        laws.saturating_sub_difference max_ params.min_inflation,
        laws.saturating_add_sum params.min_inflation (times_ratio ratio gap),
        laws.times_ratio_bound ratio gap
            (laws.compute_inflation_bound stake_ratio params.ideal_stake params.falloff),
      )

  module _ {Bank : Type 0} (currency : Currency Bank) (total_custody : Bank → ℕ) where
    stakeable_bound :
        (s : Economics Bank) (issuance : ℕ)
        → compute_total_stakeable config perbill currency total_custody s issuance ≤ issuance
    unfolding compute_total_stakeable
    stakeable_bound s issuance = omega arith

    payout_at-Pays :
        (ideal_interest total_staked total_issuance era_duration_millis : ℕ) (s : Economics Bank)
        → s.inflation_params.min_inflation
          ≤ max_inflation config perbill ideal_interest s.inflation_params
        → ideal_interest ≤ billion
        → s.inflation_params.ideal_stake ≤ billion
        → Pays config perbill currency total_custody ideal_interest total_issuance
            era_duration_millis s
            (payout_at config perbill currency total_custody ideal_interest total_staked
              total_issuance era_duration_millis s)
    unfolding payout_at update_liquidity_rewards
    payout_at-Pays ideal_interest total_staked total_issuance era_duration_millis s le small ideal =
        let params = s.inflation_params in
        let max_ = max_inflation config perbill ideal_interest params in
        let stakeable =
          compute_total_stakeable config perbill currency total_custody s total_issuance in
        let stake_ratio = from_rational (min total_staked stakeable) stakeable in
        let inflation = inflation_of config perbill stake_ratio max_ params in
        let portion = from_rational era_duration_millis milliseconds_per_year in
        let max_small : max_ ≤ billion =
          omega (arith, laws.times_ratio_bound ideal_interest params.ideal_stake small) in
        let (above, below) = inflation_of-between stake_ratio max_ params le max_small in
        let up =
          laws.times_mono_value portion (times inflation stakeable) (times max_ stakeable)
            (laws.times_mono inflation max_ stakeable below) in
        let low =
          laws.times_mono_value portion (times params.min_inflation stakeable)
            (times inflation stakeable)
            (laws.times_mono params.min_inflation inflation stakeable above) in
        let year = laws.from_rational_bound era_duration_millis milliseconds_per_year in
        record {
          whole = omega (arith, up);
          least = low;
          bounded = omega (
            arith,
            up,
            laws.times_bound portion (times max_ stakeable) year,
            laws.times_bound max_ stakeable max_small,
            stakeable_bound s total_issuance,
          );
          rewards = refl;
        }

    -- With at least one point, interests that are fractions, and a minimal inflation that is not above
    -- the maximal one at the lower bound of the interests, `era_payout` returns, at an ideal interest between the bounds of
    -- the points' interests, a payout that is as `Pays` says.
    pub era_payout-Pays :
        (p : IdealInterestPoint) (points : List IdealInterestPoint) (lo hi : ℕ)
        (total_staked total_issuance era_duration_millis : ℕ) (s : Economics Bank)
        → s.interest_points ≡ p ∷ points
        → AllWithin lo hi (p ∷ points)
        → hi ≤ billion
        → s.inflation_params.ideal_stake ≤ billion
        → s.inflation_params.min_inflation ≤ max_inflation config perbill lo s.inflation_params
        → (r : ℕ) × (paid : (ℕ × ℕ) × Economics Bank) × (lo ≤ r)
          × (r ≤ hi)
          × (era_payout config perbill currency total_custody total_staked total_issuance
                era_duration_millis s
              ≡ some paid)
          × Pays config perbill currency total_custody r total_issuance era_duration_millis s paid
    unfolding era_payout
    era_payout-Pays p points lo hi total_staked total_issuance era_duration_millis s e all small
          ideal ordered =
        let (r, at, above, below) =
          get_ideal_interest-IsWithin config perbill laws p points s.block_number lo hi all small in
        (
          r,
          payout_at config perbill currency total_custody r total_staked total_issuance
              era_duration_millis s,
          above,
          below,
          ap
              (λ (o : Option ℕ). elim o [
                | none ↦ none
                | some q ↦ some (
                    payout_at config perbill currency total_custody q total_staked total_issuance
                      era_duration_millis s)
              ])
              (ap
                  (λ (ps : List IdealInterestPoint).
                    get_ideal_interest config perbill ps s.block_number)
                  e
                ∙ at),
          payout_at-Pays r total_staked total_issuance era_duration_millis s
              (omega
                (arith, ordered, laws.times_ratio_mono lo r s.inflation_params.ideal_stake above))
              (omega arith) ideal,
        )
