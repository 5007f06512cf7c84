-- ===== src/Migrations/Checks.antt =====
-- When the checks of migrations/src/bridge_adjust.rs pass after its migration.
use xxchain.Common.{
  ℕ, ◌+◌, ◌-◌, ◌≤◌, ◌<◌, ◌≡◌, ◌≢◌, refl, ◌↔◌, true, false, some, List, [], ◌∷◌, arith, nat_eq,
  contains, u128_mod, wrapping_add, Bool-cases, inl, inr,
}
use xxchain.Frame.{ok, Origin}
use xxchain.Frame.Currency.{Currency}
use xxchain.Frame.Perbill.{Perbill}
use xxchain.Chainbridge.Storage
use xxchain.Economics.Pallet.{
  Config, Economics, set_liquidity_rewards_balance, liquidity_rewards_balance_changed,
}
use xxchain.Economics.Inflation.{compute_total_stakeable, fold_balances}
use xxchain.Migrations.BridgeAdjust.{
  Upgrade, balance_transfer, balance_liquidity_rewards, total_stakeable, on_runtime_upgrade,
  pre_upgrade, post_upgrade,
}

module _ (bridge : Storage.Config) (config : Config) (perbill : Perbill) {Bank : Type 0}
    (currency : Currency Bank) (total_custody : Bank → ℕ) (upgrade : Upgrade Bank) where
  -- A transfer that keeps the source alive moves the value between two accounts, and nothing else.
  pub record IsTransfer : Type 0 where
    pub covered :
        (source dest value : ℕ) (b : Bank)
        → (upgrade.transfer_keep_alive source dest value b).0 ≡ ok tt
        → value ≤ currency.free_balance b source
    pub debits :
        (source dest value : ℕ) (b : Bank)
        → source ≢ dest
        → (upgrade.transfer_keep_alive source dest value b).0 ≡ ok tt
        → currency.free_balance (upgrade.transfer_keep_alive source dest value b).1 source
          ≡ currency.free_balance b source - value
    pub credits :
        (source dest value : ℕ) (b : Bank)
        → source ≢ dest
        → (upgrade.transfer_keep_alive source dest value b).0 ≡ ok tt
        → currency.free_balance (upgrade.transfer_keep_alive source dest value b).1 dest
          ≡ currency.free_balance b dest + value
    pub others :
        (source dest value x : ℕ) (b : Bank)
        → x ≢ source
        → x ≢ dest
        → currency.free_balance (upgrade.transfer_keep_alive source dest value b).1 x
          ≡ currency.free_balance b x
    pub issuance :
        (source dest value : ℕ) (b : Bank)
        → upgrade.total_issuance (upgrade.transfer_keep_alive source dest value b).1
          ≡ upgrade.total_issuance b
    pub custody :
        (source dest value : ℕ) (b : Bank)
        → total_custody (upgrade.transfer_keep_alive source dest value b).1 ≡ total_custody b

  -- The transfer of the migration.
  abbrev pub moved : Economics Bank → Bank
  moved s =
      (upgrade.transfer_keep_alive bridge.account_id config.rewards_account_id balance_transfer
        s.bank).1

  abbrev pub public_balances : Bank → ℕ
  public_balances b = fold_balances config perbill currency total_custody b 0 config.public_accounts

  -- The state after the migration.
  abbrev pub adjusted : Economics Bank → Economics Bank
  adjusted s = record s {
    bank = moved s;
    liquidity_rewards = balance_liquidity_rewards;
    events = liquidity_rewards_balance_changed ∷ s.events;
  }

  fold_balances-moved :
      IsTransfer
      → (s : Economics Bank) (acc : ℕ) (xs : List ℕ) → contains xs bridge.account_id ≡ false
      → contains xs config.rewards_account_id ≡ false
      → fold_balances config perbill currency total_custody (moved s) acc xs
        ≡ fold_balances config perbill currency total_custody s.bank acc xs
  unfolding fold_balances contains
  fold_balances-moved laws s acc [] nb nr = refl
  fold_balances-moved laws s acc (x ∷ xs) nb nr =
      let same =
        laws.others bridge.account_id config.rewards_account_id balance_transfer x s.bank
          (ground (arith)) (ground (arith)) in
      rw same (
        fold_balances-moved laws s (wrapping_add u128_mod acc (currency.free_balance s.bank x)) xs
          (ground arith) (ground arith))

  upgrade-adjusts :
      (s : Economics Bank)
      → (upgrade.transfer_keep_alive bridge.account_id config.rewards_account_id balance_transfer
          s.bank).0
        ≡ ok tt
      → on_runtime_upgrade bridge config perbill currency total_custody upgrade s
        ≡ some (adjusted s)
  unfolding on_runtime_upgrade set_liquidity_rewards_balance
  upgrade-adjusts s done = rw done (elim (Bool-cases (config.admin_origin Origin.root)) [
    | inl admin ↦ rw admin refl
    | inr other ↦ rw other refl
  ])

  -- The sums of the balances stay in range, and no more is set aside than is issued, before and after.
  pub record HasRoom (s : Economics Bank) : Type 0 where
    pub bridge_fits : currency.free_balance s.bank bridge.account_id < u128_mod
    pub fits :
        currency.free_balance s.bank config.rewards_account_id
          + total_custody s.bank
          + s.liquidity_rewards
          + public_balances s.bank
          + balance_transfer
          + balance_liquidity_rewards
        < u128_mod
    pub issued_before :
        currency.free_balance s.bank config.rewards_account_id
          + total_custody s.bank
          + s.liquidity_rewards
          + public_balances s.bank
        ≤ upgrade.total_issuance s.bank
    pub issued_after :
        currency.free_balance s.bank config.rewards_account_id
          + total_custody s.bank
          + public_balances s.bank
          + balance_transfer
          + balance_liquidity_rewards
        ≤ upgrade.total_issuance s.bank

  module _ (laws : IsTransfer) (s : Economics Bank)
      (apart : bridge.account_id ≢ config.rewards_account_id)
      (bridge_not_public : contains config.public_accounts bridge.account_id ≡ false)
      (pool_not_public : contains config.public_accounts config.rewards_account_id ≡ false)
      (room : HasRoom s)
      (done : (upgrade.transfer_keep_alive bridge.account_id config.rewards_account_id
          balance_transfer s.bank).0
        ≡ ok tt) where
    pool_after :
        currency.free_balance (moved s) config.rewards_account_id
        ≡ currency.free_balance s.bank config.rewards_account_id + balance_transfer
    pool_after =
        laws.credits bridge.account_id config.rewards_account_id balance_transfer s.bank apart done

    public_after : public_balances (moved s) ≡ public_balances s.bank
    public_after =
        fold_balances-moved laws s 0 config.public_accounts bridge_not_public pool_not_public

    stakeable_before :
        total_stakeable bridge config perbill currency total_custody upgrade s
        ≡ upgrade.total_issuance s.bank
          - (currency.free_balance s.bank config.rewards_account_id
              + total_custody s.bank
              + s.liquidity_rewards
              + public_balances s.bank)
    unfolding compute_total_stakeable
    stakeable_before = omega (arith, room.fits)

    stakeable_after :
        total_stakeable bridge config perbill currency total_custody upgrade (adjusted s)
        ≡ upgrade.total_issuance s.bank
          - (currency.free_balance s.bank config.rewards_account_id
              + total_custody s.bank
              + public_balances s.bank
              + balance_transfer
              + balance_liquidity_rewards)
    unfolding compute_total_stakeable
    stakeable_after = omega (
      arith,
      room.fits,
      pool_after,
      public_after,
      laws.issuance bridge.account_id config.rewards_account_id balance_transfer s.bank,
      laws.custody bridge.account_id config.rewards_account_id balance_transfer s.bank,
    )

    -- The migration goes through, and its checks pass exactly if the liquidity rewards stood at 50
    -- million units before it: the 40 million that go to the rewards pool are what the liquidity
    -- rewards lose. It is required that the transfer out of the bridge's account succeeds, that the
    -- bridge's account, the rewards pool and the public accounts are different accounts, and that the
    -- sums of balances stay in range and within the issuance.
    pub post_upgrade-Passes :
        (on_runtime_upgrade bridge config perbill currency total_custody upgrade s
          ≡ some (adjusted s))
        × ((post_upgrade bridge config perbill currency total_custody upgrade
                (pre_upgrade bridge config perbill currency total_custody upgrade s)
                (adjusted s)
              ≡ true)
            ↔ (s.liquidity_rewards ≡ 50000000000000000))
    unfolding post_upgrade pre_upgrade
    post_upgrade-Passes = (
      upgrade-adjusts s done,
      ground (
        arith,
        stakeable_before,
        stakeable_after,
        room.bridge_fits,
        room.fits,
        room.issued_before,
        room.issued_after,
        pool_after,
        laws.debits bridge.account_id config.rewards_account_id balance_transfer s.bank apart done,
        laws.covered bridge.account_id config.rewards_account_id balance_transfer s.bank done,
      ),
    )
