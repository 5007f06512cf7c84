-- ===== src/Betanet/Options.antt =====
-- RewardOption and UserInfo of xx-betanet-rewards/src/lib.rs.
use xxchain.Common.{ℕ}
use xxchain.Frame.Perbill.{Perbill}

pub data RewardOption : Type 0 where
  no_vesting vesting_1_month vesting_3_month vesting_6_month vesting_9_month : RewardOption

-- `RewardOption::default`
abbrev pub default_option : RewardOption
default_option = vesting_6_month

-- Blocks.
unfoldable pub vesting_period : RewardOption → ℕ
vesting_period no_vesting = 0
vesting_period vesting_1_month = 432000
vesting_period vesting_3_month = 1296000
vesting_period vesting_6_month = 2592000
vesting_period vesting_9_month = 3888000

module _ (p : Perbill) where
  unfoldable pub principal_lock : RewardOption → ℕ
  principal_lock no_vesting = 0
  principal_lock vesting_1_month = p.from_rational 1 1
  principal_lock vesting_3_month = p.from_rational 9 10
  principal_lock vesting_6_month = p.from_rational 8 10
  principal_lock vesting_9_month = p.from_rational 1 1

  unfoldable pub rewards : RewardOption → ℕ
  rewards no_vesting = p.from_rational 2 100
  rewards vesting_1_month = p.from_rational 12 100
  rewards vesting_3_month = p.from_rational 45 100
  rewards vesting_6_month = p.from_rational 1 1
  rewards vesting_9_month = p.from_rational 1 1

  unfoldable pub extra_rewards : RewardOption → ℕ
  extra_rewards no_vesting = 0
  extra_rewards vesting_1_month = 0
  extra_rewards vesting_3_month = 0
  extra_rewards vesting_6_month = 0
  extra_rewards vesting_9_month = p.from_rational 2 10

pub record UserInfo : Type 0 where
  pub principal : ℕ
  pub reward : ℕ
  pub option : RewardOption
