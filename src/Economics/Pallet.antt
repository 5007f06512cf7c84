-- ===== src/Economics/Pallet.antt =====
-- The storage and the calls of xx-economics/src/lib.rs. A `Perbill` is its parts per billion.
use xxchain.Common.{ℕ, Bool, List, [], ◌∷◌, leb, if◌then◌else◌}
use xxchain.Frame.{ok, DispatchResult, modify, ◌>>◌, Origin, origin_or_root}
use xxchain.Frame.Currency.{Currency}

pub record InflationFixedParams : Type 0 where
  pub min_inflation : ℕ
  pub ideal_stake : ℕ
  pub falloff : ℕ

pub record IdealInterestPoint : Type 0 where
  pub block : ℕ
  pub interest : ℕ

pub data Event : Type 0 where
  reward_from_pool reward_minted : ℕ → Event
  inflation_params_changed interest_points_changed ideal_liquidity_stake_changed : Event
  liquidity_rewards_balance_changed : Event

-- `trait Config`, as far as it is data. The rewards account is what the `PalletId` converts into;
-- the public accounts are those of the handler.
pub record Config : Type 0 where
  pub rewards_account_id : ℕ
  pub public_accounts : List ℕ
  pub era_duration : ℕ
  pub admin_origin : Origin → Bool

-- The pallet's storage, the block number, the events, newest first, and the balances.
pub record Economics (Bank : Type 0) : Type 0 where
  pub inflation_params : InflationFixedParams
  pub interest_points : List IdealInterestPoint
  pub ideal_liquidity_stake : ℕ
  pub liquidity_rewards : ℕ
  pub block_number : ℕ
  pub events : List Event
  pub bank : Bank

-- `sort_by(|a, b| a.block.cmp(&b.block))`, a stable sort.
unfoldable pub insert_point : IdealInterestPoint → List IdealInterestPoint → List IdealInterestPoint
insert_point p [] = p ∷ []
insert_point p (q ∷ qs) =
    let rest = insert_point p qs in if leb p.block q.block then p ∷ q ∷ qs else q ∷ rest

unfoldable pub sort_points : List IdealInterestPoint → List IdealInterestPoint
sort_points [] = []
sort_points (p ∷ ps) = insert_point p (sort_points ps)

pub record GenesisConfig : Type 0 where
  pub inflation_params : InflationFixedParams
  pub interest_points : List IdealInterestPoint
  pub ideal_liquidity_stake : ℕ
  pub liquidity_rewards : ℕ
  pub balance : ℕ

module _ {Bank : Type 0} where
  abbrev pub deposit_event : Event → DispatchResult (Economics Bank)
  deposit_event e s = (ok tt, record s { events = e ∷ s.events })

module _ (config : Config) {Bank : Type 0} (currency : Currency Bank) where
  abbrev pub ensure_admin : Origin → DispatchResult (Economics Bank)
  ensure_admin = origin_or_root config.admin_origin

  unfoldable pub set_inflation_params :
      Origin → InflationFixedParams → DispatchResult (Economics Bank)
  set_inflation_params origin params = do
    ensure_admin origin
    modify (λ s. record s { inflation_params = params })
    deposit_event inflation_params_changed

  unfoldable pub set_interest_points :
      Origin → List IdealInterestPoint → DispatchResult (Economics Bank)
  set_interest_points origin points = do
    ensure_admin origin
    modify (λ s. record s { interest_points = sort_points points })
    deposit_event interest_points_changed

  unfoldable pub set_liquidity_rewards_stake : Origin → ℕ → DispatchResult (Economics Bank)
  set_liquidity_rewards_stake origin amount = do
    ensure_admin origin
    modify (λ s. record s { ideal_liquidity_stake = amount })
    deposit_event ideal_liquidity_stake_changed

  unfoldable pub set_liquidity_rewards_balance : Origin → ℕ → DispatchResult (Economics Bank)
  set_liquidity_rewards_balance origin amount = do
    ensure_admin origin
    modify (λ s. record s { liquidity_rewards = amount })
    deposit_event liquidity_rewards_balance_changed

  -- The genesis build.
  unfoldable pub genesis_build : GenesisConfig → Bank → Economics Bank
  genesis_build g bank = record {
    inflation_params = g.inflation_params;
    interest_points = sort_points g.interest_points;
    ideal_liquidity_stake = g.ideal_liquidity_stake;
    liquidity_rewards = g.liquidity_rewards;
    block_number = 0;
    events = [];
    bank = currency.make_free_balance_be config.rewards_account_id g.balance bank;
  }
