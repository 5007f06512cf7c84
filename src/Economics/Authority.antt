-- ===== src/Economics/Authority.antt =====
-- Who may call what in xx-economics/src/lib.rs.
use xxchain.Common.{ℕ, ◌≡◌, false, ◌||◌, List, arith}
use xxchain.Frame.{
  Origin, bad_origin, DispatchResult, is_root, Refuses, ◌>>◌, modify, origin_or_root,
}
use xxchain.Frame.Currency.{Currency}
use xxchain.Economics.Pallet.{
  Config, Economics, InflationFixedParams, IdealInterestPoint, deposit_event, sort_points,
}
use xxchain.Economics.Pallet

-- `enum Call`.
pub data Call : Type 0 where
  set_inflation_params : InflationFixedParams → Call
  set_interest_points : List IdealInterestPoint → Call
  set_liquidity_rewards_stake set_liquidity_rewards_balance : ℕ → Call

module _ (config : Config) {Bank : Type 0} (currency : Currency Bank) where
  unfoldable pub run : Origin → Call → DispatchResult (Economics Bank)
  run o (set_inflation_params params) = Pallet.set_inflation_params config currency o params
  run o (set_interest_points points) = Pallet.set_interest_points config currency o points
  run o (set_liquidity_rewards_stake n) = Pallet.set_liquidity_rewards_stake config currency o n
  run o (set_liquidity_rewards_balance n) = Pallet.set_liquidity_rewards_balance config currency o n

  admin-Refuses :
      (s : Economics Bank) (o : Origin) (m : DispatchResult (Economics Bank))
      → (config.admin_origin o || is_root o) ≡ false
      → Refuses (origin_or_root config.admin_origin o >> m) s
  admin-Refuses s Origin.root m h = absurd (ground arith)
  admin-Refuses s o m h = (bad_origin, ground arith)

  -- Every call by anyone but the administrator or root fails and changes nothing.
  pub economics-Refuses :
      (s : Economics Bank) (o : Origin) (c : Call)
      → (config.admin_origin o || is_root o) ≡ false
      → Refuses (run o c) s
  unfolding run Pallet.set_inflation_params Pallet.set_interest_points
      Pallet.set_liquidity_rewards_stake Pallet.set_liquidity_rewards_balance
  economics-Refuses s o (set_inflation_params params) h =
      admin-Refuses s o
        (modify (λ s. record s { inflation_params = params })
          >> deposit_event Pallet.inflation_params_changed)
        h
  economics-Refuses s o (set_interest_points points) h =
      admin-Refuses s o
        (modify (λ s. record s { interest_points = sort_points points })
          >> deposit_event Pallet.interest_points_changed)
        h
  economics-Refuses s o (set_liquidity_rewards_stake n) h =
      admin-Refuses s o
        (modify (λ s. record s { ideal_liquidity_stake = n })
          >> deposit_event Pallet.ideal_liquidity_stake_changed)
        h
  economics-Refuses s o (set_liquidity_rewards_balance n) h =
      admin-Refuses s o
        (modify (λ s. record s { liquidity_rewards = n })
          >> deposit_event Pallet.liquidity_rewards_balance_changed)
        h
