-- ===== src/Migrations/BridgeAdjust.antt =====
-- BridgeAdjust of migrations/src/bridge_adjust.rs, with its checks before and after.
use xxchain.Common.{
  ℕ, Bool, ◌&&◌, Option, none, some, ◌==◌, nat_eq, u128_mod, wrapping_add, wrapping_sub,
}
use xxchain.Frame.{Result, ok, err, DispatchResult, Origin}
use xxchain.Frame.Currency.{Currency}
use xxchain.Frame.Perbill.{Perbill}
use xxchain.Chainbridge.Storage
use xxchain.Economics.Pallet.{Config, Economics, set_liquidity_rewards_balance}
use xxchain.Economics.Inflation.{compute_total_stakeable, rewards_balance}

abbrev pub balance_transfer : ℕ
balance_transfer = 40000000000000000

abbrev pub balance_liquidity_rewards : ℕ
balance_liquidity_rewards = 10000000000000000

-- What the migration calls of the currency besides `free_balance`.
pub record Upgrade (Bank : Type 0) : Type 0 where
  -- `transfer(source, dest, value, KeepAlive)`
  pub transfer_keep_alive : ℕ → ℕ → ℕ → DispatchResult Bank
  pub total_issuance : Bank → ℕ

-- What `pre_upgrade` hands over: the balances of the bridge and of the rewards pool, and the total
-- stakeable.
abbrev pub Saved : Type 0
Saved = ℕ × ℕ × ℕ

module _ (bridge : Storage.Config) (config : Config) (perbill : Perbill) {Bank : Type 0}
    (currency : Currency Bank) (total_custody : Bank → ℕ) (upgrade : Upgrade Bank) where
  abbrev pub bridge_balance : Economics Bank → ℕ
  bridge_balance s = currency.free_balance s.bank bridge.account_id

  abbrev pub total_stakeable : Economics Bank → ℕ
  total_stakeable s =
      compute_total_stakeable config perbill currency total_custody s
        (upgrade.total_issuance s.bank)

  -- `unwrap` of the second call.
  abbrev pub unwrap_state : Result (Unit {0}) × Economics Bank → Option (Economics Bank)
  unwrap_state (ok _, s) = some s
  unwrap_state (err _, s) = none

  -- What follows the transfer; `none` is a panic.
  abbrev pub adjust : Economics Bank → Result (Unit {0}) → Option (Economics Bank)
  adjust s (err _) = none
  adjust s (ok _) =
      unwrap_state
        (set_liquidity_rewards_balance config currency Origin.root balance_liquidity_rewards s)

  unfoldable pub on_runtime_upgrade : Economics Bank → Option (Economics Bank)
  on_runtime_upgrade s =
      let (r, bank) =
        upgrade.transfer_keep_alive bridge.account_id config.rewards_account_id balance_transfer
          s.bank in
      adjust (record s { bank = bank }) r

  unfoldable pub pre_upgrade : Economics Bank → Saved
  pre_upgrade s =
      (bridge_balance s, rewards_balance config perbill currency total_custody s, total_stakeable s)

  -- The four assertions.
  unfoldable pub post_upgrade : Saved → Economics Bank → Bool
  post_upgrade saved s =
      (wrapping_sub u128_mod saved.0 balance_transfer == bridge_balance s)
      && ((wrapping_add u128_mod saved.1 balance_transfer
            == rewards_balance config perbill currency total_custody s)
          && ((saved.2 == total_stakeable s) && (s.liquidity_rewards == balance_liquidity_rewards)))
