-- ===== src/Migrations/Examples.antt =====
-- A run of migrations/src/bridge_adjust.rs.
use xxchain.Common.{
  ℕ, ◌+◌, ◌-◌, ◌≡◌, ◌↔◌, refl, true, false, some, [], ◌∷◌, arith, nat_beq, if◌then◌else◌, contains,
}
use xxchain.Frame.Coins.{Balances, coins}
use xxchain.Frame.Perbill.{Perbill, billion}
use xxchain.Chainbridge.Storage
use xxchain.Economics.Pallet.{Config, Economics}
use xxchain.Economics.Inflation.{fold_balances}
use xxchain.Migrations.BridgeAdjust.{Upgrade, on_runtime_upgrade, pre_upgrade, post_upgrade}
use xxchain.Migrations.Checks.{IsTransfer, HasRoom, adjusted, post_upgrade-Passes}

abbrev test_bridge : Storage.Config
test_bridge = record {
  chain_id = 0;
  proposal_lifetime = 10;
  account_id = 1;
  admin_origin = λ o. false;
}

abbrev test_config : Config
test_config = record {
  rewards_account_id = 2;
  public_accounts = 3 ∷ 4 ∷ [];
  era_duration = 100;
  admin_origin = λ o. false;
}

abbrev test_perbill : Perbill
test_perbill = record {
  from_rational = λ a b. billion;
  times = λ r x. x;
  times_ratio = λ r x. x;
  saturating_add = λ a b. a + b;
  saturating_sub = λ a b. a - b;
  compute_inflation = λ a b c. a;
}

abbrev no_custody : Balances → ℕ
no_custody b = 0

abbrev test_upgrade : Upgrade Balances
test_upgrade = record {
  transfer_keep_alive = coins.transfer;
  total_issuance = λ b. 1000000000000000000;
}

test_upgrade-IsTransfer :
    IsTransfer test_bridge test_config test_perbill coins no_custody test_upgrade
test_upgrade-IsTransfer = record {
  covered = λ source dest value b h. ground arith;
  debits = λ source dest value b ne h. ground arith;
  credits = λ source dest value b ne h. ground arith;
  others = λ source dest value x b nx ny. ground arith;
  issuance = λ source dest value b. refl;
  custody = λ source dest value b. refl;
}

-- 60 million units in the bridge's account.
abbrev start : Economics Balances
start = record {
  inflation_params = record { min_inflation = 0; ideal_stake = 0; falloff = 0 };
  interest_points = [];
  ideal_liquidity_stake = 0;
  liquidity_rewards = 50000000000000000;
  block_number = 5;
  events = [];
  bank = λ a. if nat_beq 1 a then 60000000000000000 else 7;
}

start-HasRoom : HasRoom test_bridge test_config test_perbill coins no_custody test_upgrade start
unfolding fold_balances
start-HasRoom = record {
  bridge_fits = omega arith;
  fits = omega arith;
  issued_before = omega arith;
  issued_after = omega arith;
}

post_upgrade-Passes_example :
    (on_runtime_upgrade test_bridge test_config test_perbill coins no_custody test_upgrade start
      ≡ some (adjusted test_bridge test_config test_perbill coins no_custody test_upgrade start))
    × ((post_upgrade test_bridge test_config test_perbill coins no_custody test_upgrade
            (pre_upgrade test_bridge test_config test_perbill coins no_custody test_upgrade start)
            (adjusted test_bridge test_config test_perbill coins no_custody test_upgrade start)
          ≡ true)
        ↔ (start.liquidity_rewards ≡ 50000000000000000))
unfolding contains
post_upgrade-Passes_example =
    post_upgrade-Passes test_bridge test_config test_perbill coins no_custody test_upgrade
      test_upgrade-IsTransfer start (omega arith) refl refl start-HasRoom refl
