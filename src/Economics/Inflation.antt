-- ===== src/Economics/Inflation.antt =====
-- xx-economics/src/inflation.rs: the ideal interest of a block and the payout of an era.
use xxchain.Common.{
  ℕ, ◌-◌, ◌*◌, ◌/◌, Option, none, some, List, [], ◌∷◌, min, leb, ltb, get_elem?, suc, zero, u32_mod,
  u128_mod, wrapping_add, wrapping_sub, ◌==◌, nat_eq, if◌then◌else◌,
}
use xxchain.Frame.Currency.{Currency}
use xxchain.Frame.Perbill.{Perbill}
use xxchain.Economics.Pallet.{Config, Economics, IdealInterestPoint, InflationFixedParams}

-- `points.iter().position(|p| p.block >= block)`
unfoldable pub position : List IdealInterestPoint → ℕ → Option ℕ
position [] block = none
position (p ∷ ps) block =
    if leb block p.block
    then some 0
    else elim (position ps block) [ none ↦ none | some i ↦ some (suc i) ]

-- `points.last()`
unfoldable pub last : List IdealInterestPoint → Option IdealInterestPoint
last [] = none
last (p ∷ ps) = elim ps [ [] ↦ some p | q ∷ qs ↦ last ps ]

-- The panics of `unwrap` and of an index out of range are `none`.
abbrev pub interest_of : Option IdealInterestPoint → Option ℕ
interest_of none = none
interest_of (some p) = some p.interest

-- Milliseconds of a Julian year.
abbrev pub milliseconds_per_year : ℕ
milliseconds_per_year = 1000 * 3600 * 24 * 36525 / 100

module _ (config : Config) (perbill : Perbill) where
  open perbill use {from_rational, times, times_ratio, saturating_add, saturating_sub}

  -- Half an era, in blocks.
  abbrev pub half_era_blocks : ℕ
  half_era_blocks = times (from_rational 1 2) config.era_duration

  abbrev pub calc_block : ℕ → ℕ
  calc_block block =
      if leb config.era_duration block then wrapping_sub u32_mod block half_era_blocks else block

  unfoldable pub compute_ideal_interest : ℕ → IdealInterestPoint → IdealInterestPoint → ℕ
  compute_ideal_interest block start end =
      let decreasing = ltb end.interest start.interest in
      let diff =
        if decreasing
        then saturating_sub start.interest end.interest
        else saturating_sub end.interest start.interest in
      if diff == 0
      then start.interest
      else (let block_diff = wrapping_sub u32_mod end.block start.block in
          let ratio = from_rational (calc_block block) block_diff in
          if decreasing
          then saturating_sub start.interest (times_ratio ratio diff)
          else saturating_add start.interest (times_ratio ratio diff))

  -- `points[index - 1]` and `points[index]`
  abbrev pub between : ℕ → Option IdealInterestPoint → Option IdealInterestPoint → Option ℕ
  between block (some start) (some end) = some (compute_ideal_interest block start end)
  between block _ _ = none

  -- `match position { ... }`
  abbrev pub interest_at : List IdealInterestPoint → ℕ → Option ℕ → Option ℕ
  interest_at points block (some zero) = interest_of (get_elem? points 0)
  interest_at points block (some (suc i)) =
      between block (get_elem? points i) (get_elem? points (suc i))
  interest_at points block none = interest_of (last points)

  unfoldable pub get_ideal_interest : List IdealInterestPoint → ℕ → Option ℕ
  get_ideal_interest points block = interest_at points block (position points block)

  -- The maximal and the actual inflation.
  abbrev pub max_inflation : ℕ → InflationFixedParams → ℕ
  max_inflation ideal_interest params = times_ratio ideal_interest params.ideal_stake

  abbrev pub inflation_of : ℕ → ℕ → InflationFixedParams → ℕ
  inflation_of stake_ratio max_ params =
      let inflation_ratio =
        perbill.compute_inflation stake_ratio params.ideal_stake params.falloff in
      saturating_add params.min_inflation
        (times_ratio inflation_ratio (saturating_sub max_ params.min_inflation))

  module _ {Bank : Type 0} (currency : Currency Bank) (total_custody : Bank → ℕ) where
    -- `fold(Zero::zero(), |acc, x| acc + free_balance(x))`
    unfoldable pub fold_balances : Bank → ℕ → List ℕ → ℕ
    fold_balances b acc [] = acc
    fold_balances b acc (x ∷ xs) =
        fold_balances b (wrapping_add u128_mod acc (currency.free_balance b x)) xs

    abbrev pub rewards_balance : Economics Bank → ℕ
    rewards_balance s = currency.free_balance s.bank config.rewards_account_id

    unfoldable pub compute_total_stakeable : Economics Bank → ℕ → ℕ
    compute_total_stakeable s issuance =
        let unstakeable =
          wrapping_add u128_mod
            (wrapping_add u128_mod
              (wrapping_add u128_mod (rewards_balance s) (total_custody s.bank))
              s.liquidity_rewards)
            (fold_balances s.bank 0 config.public_accounts) in
        issuance - unstakeable

    unfoldable pub update_liquidity_rewards : ℕ → ℕ → Economics Bank → Economics Bank
    update_liquidity_rewards portion interest s =
        let payout = times portion (times interest s.ideal_liquidity_stake) in
        record s { liquidity_rewards = s.liquidity_rewards - payout }

    -- `era_payout` once the ideal interest is known.
    unfoldable pub payout_at : ℕ → ℕ → ℕ → ℕ → Economics Bank → (ℕ × ℕ) × Economics Bank
    payout_at ideal_interest total_staked total_issuance era_duration_millis s =
        let params = s.inflation_params in
        let max_ = max_inflation ideal_interest params in
        let total_stakeable = compute_total_stakeable s total_issuance in
        let stake = min total_staked total_stakeable in
        let stake_ratio = from_rational stake total_stakeable in
        let inflation = inflation_of stake_ratio max_ params in
        let portion = from_rational era_duration_millis milliseconds_per_year in
        let s' = update_liquidity_rewards portion ideal_interest s in
        let validator_payout = times portion (times inflation total_stakeable) in
        let max_payout = times portion (times max_ total_stakeable) in
        ((validator_payout, max_payout - validator_payout), s')

    -- `EraPayout::era_payout`; `none` is the panic of an empty list of points.
    unfoldable pub era_payout : ℕ → ℕ → ℕ → Economics Bank → Option ((ℕ × ℕ) × Economics Bank)
    era_payout total_staked total_issuance era_duration_millis s =
        elim (get_ideal_interest s.interest_points s.block_number) [
          | none ↦ none
          | some ideal_interest ↦
              some (payout_at ideal_interest total_staked total_issuance era_duration_millis s)
        ]
