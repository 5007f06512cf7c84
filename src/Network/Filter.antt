-- ===== src/Network/Filter.antt =====
-- The filters of calls of runtime/xxnetwork/src/lib.rs: BaseFilter and ProxyType.
use xxchain.Common.{ℕ, Bool, true, false, ◌||◌, ◌==◌, nat_eq}
use xxchain.Swap.Authority

-- The calls of the runtime, as `construct_runtime!` makes them of its pallets. A number stands for a
-- call of a pallet where nothing looks into it.
pub data RuntimeCall : Type 0 where
  system scheduler preimage babe timestamp balances staking : ℕ → RuntimeCall
  election_provider_multi_phase voter_list session grandpa im_online : ℕ → RuntimeCall
  democracy council technical_committee elections technical_membership treasury : ℕ → RuntimeCall
  claims vesting utility identity proxy bounties child_bounties tips : ℕ → RuntimeCall
  chain_bridge : ℕ → RuntimeCall
  swap : Authority.Call → RuntimeCall
  xx_cmix xx_economics xx_custody xx_betanet_rewards xx_public : ℕ → RuntimeCall
  multisig recovery assets uniques nfts : ℕ → RuntimeCall

-- `BaseFilter::contains`
abbrev pub contains : RuntimeCall → Bool
contains (uniques _) = false
contains _ = true

pub data ProxyType : Type 0 where
  any non_transfer governance staking voting : ProxyType

-- The variants of other pallets' calls that the filter names: which numbers stand for them.
pub record Variants : Type 0 where
  pub vested_transfer : ℕ → Bool
  pub democracy_vote : ℕ → Bool
  pub democracy_remove_vote : ℕ → Bool
  pub elections_vote : ℕ → Bool
  pub elections_remove_voter : ℕ → Bool

-- The derived equality compares the variants.
abbrev pub variant : ProxyType → ℕ
variant any = 0
variant non_transfer = 1
variant governance = 2
variant staking = 3
variant voting = 4

abbrev pub is_same : ProxyType → ProxyType → Bool
is_same x y = variant x == variant y

module _ (variants : Variants) where
  -- The calls that the first `matches!` lists.
  unfoldable pub is_transfer : RuntimeCall → Bool
  is_transfer (RuntimeCall.assets _) = true
  is_transfer (RuntimeCall.uniques _) = true
  is_transfer (RuntimeCall.nfts _) = true
  is_transfer (RuntimeCall.balances _) = true
  is_transfer (RuntimeCall.vesting c) = variants.vested_transfer c
  is_transfer _ = false

  unfoldable pub is_governance : RuntimeCall → Bool
  is_governance (RuntimeCall.democracy _) = true
  is_governance (RuntimeCall.council _) = true
  is_governance (RuntimeCall.technical_committee _) = true
  is_governance (RuntimeCall.elections _) = true
  is_governance (RuntimeCall.treasury _) = true
  is_governance (RuntimeCall.preimage _) = true
  is_governance (RuntimeCall.bounties _) = true
  is_governance (RuntimeCall.child_bounties _) = true
  is_governance _ = false

  unfoldable pub is_staking : RuntimeCall → Bool
  is_staking (RuntimeCall.staking _) = true
  is_staking _ = false

  unfoldable pub is_voting : RuntimeCall → Bool
  is_voting (RuntimeCall.democracy c) =
      variants.democracy_vote c || variants.democracy_remove_vote c
  is_voting (RuntimeCall.elections c) =
      variants.elections_vote c || variants.elections_remove_voter c
  is_voting _ = false

  unfoldable pub filter : ProxyType → RuntimeCall → Bool
  unfolding is_transfer is_governance is_staking is_voting
  filter any c = true
  filter non_transfer c = elim (is_transfer c) [ true ↦ false | false ↦ true ]
  filter governance c = is_governance c
  filter ProxyType.staking c = is_staking c
  filter voting c = is_voting c

-- The match, for two different kinds.
unfoldable pub is_wider : ProxyType → ProxyType → Bool
is_wider any _ = true
is_wider _ any = false
is_wider non_transfer _ = true
is_wider _ _ = false

unfoldable pub is_superset : ProxyType → ProxyType → Bool
is_superset x y = is_same x y || is_wider x y
