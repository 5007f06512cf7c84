-- ===== src/Custody/Examples.antt =====
-- Runs of xx-team-custody on a small state.
use native.Mathlib.Nat.{mul-le-mul_left}
use xxchain.Common.{[], ◌∷◌, contains, ℕ, ◌+◌, ◌-◌, ◌*◌, ◌/◌, ◌≤◌, refl, false, arith, nat_eq, min}
use xxchain.Frame.{Origin}
use xxchain.Frame.StorageMap.{get, insert, empty, get-empty, contains_key}
use xxchain.Frame.StorageMap.Totals.{total-empty}
use xxchain.Frame.Perbill.{Perbill, IsPerbill, billion}
use xxchain.Custody.Pallet.{CustodyInfo, Config, Custody}
use xxchain.Custody.Payout.{amount_due, compute_payout, do_payout, payout_info, try_payout}
use xxchain.Custody.Calls
use xxchain.Custody.Calls.{initialize_custody}
use xxchain.Custody.Square.{HasRoom, IsModest, allocation_of}
use xxchain.Custody.Keeps.{InOrder}
use xxchain.Custody.History.{before, History, begin, member, block, History-InOrder}
use xxchain.Custody.Idle.{purse}
use xxchain.Network.Allocations.{Rounds, custody-IsModest}
use xxchain.Network.Origins.{custody_config}
use native.Mathlib.Nat.{div-mul-le_self}
use xxchain.Frame.Coins.{Balances, coins, coins-IsLawful}
use xxchain.Economics.Pallet.{Economics}
use xxchain.Economics.Pallet
use xxchain.Economics.Inflation.{fold_balances}
use xxchain.Network.Unvested.{Unlocked, payout-Unlocks}

-- Custody for 100 blocks, with a payout every 10.
abbrev test_config : Config
test_config = record {
  payout_frequency = 10;
  custody_duration = 100;
  governance_custody_duration = 50;
  admin_origin = λ o. false;
}

-- A tenth for every ratio: coarse parts per billion that keep the schedule.
abbrev tenths : Perbill
tenths = record {
  from_rational = λ a b. 100000000;
  times = λ r x. x / 10;
  times_ratio = λ r x. x / 10;
  saturating_add = λ a b. min (a + b) billion;
  saturating_sub = λ a b. a - b;
  compute_inflation = λ a b c. min a billion;
}

tenths-IsPerbill : IsPerbill tenths
tenths-IsPerbill = record {
  from_rational_bound = λ a b. omega arith;
  times_bound = λ r x h. omega arith;
  times_mono = λ r s x h. omega arith;
  times_mono_value = λ r x y h. omega arith;
  times_ratio_bound = λ r x h. omega arith;
  times_ratio_mono = λ r s x h. omega arith;
  saturating_add_sum = λ a b. refl;
  saturating_sub_difference = λ a b. refl;
  compute_inflation_bound = λ a b c. omega arith;
}

test-HasRoom : HasRoom test_config tenths purse
test-HasRoom w a b = omega arith

all-IsModest : (allocation : ℕ) → IsModest test_config tenths purse allocation
unfolding compute_payout
all-IsModest allocation n le =
    let chunks : allocation / 10 * (n / 10) ≤ allocation / 10 * 10 =
      mul-le-mul_left (allocation / 10) (omega arith) in
    omega (arith, chunks)

abbrev rich : Balances
rich = λ a. 1000

abbrev one_member : Custody Balances
one_member = initialize_custody test_config tenths purse 5 1000 (before (λ a. 0))

abbrev later : Custody Balances
later = record one_member { block_number = 25; world = rich }

story : History test_config tenths purse later
unfolding initialize_custody
story = block 25 rich (omega arith) (
    member 5 1000 (get-empty 5) (omega (arith, total-empty ℕ CustodyInfo allocation_of))
      (all-IsModest 1000) (begin (λ a. 0)))

History-InOrder_example : InOrder test_config tenths purse later
History-InOrder_example =
    History-InOrder test_config tenths purse tenths-IsPerbill test-HasRoom (omega arith) story

later-InOrder : InOrder test_config tenths purse later
later-InOrder =
    History-InOrder test_config tenths purse tenths-IsPerbill test-HasRoom (omega arith) story

abbrev test_economics : Pallet.Config
test_economics = record {
  rewards_account_id = 2;
  public_accounts = 800 ∷ 900 ∷ [];
  era_duration = 100;
  admin_origin = λ o. false;
}

abbrev economy : Economics (Custody Balances)
economy = record {
  inflation_params = record { min_inflation = 0; ideal_stake = 0; falloff = 0 };
  interest_points = [];
  ideal_liquidity_stake = 0;
  liquidity_rewards = 50;
  block_number = 25;
  events = [];
  bank = later;
}

abbrev info_of_five : CustodyInfo
info_of_five = record { allocation = 1000; vested = 0; custody = 5000; reserve = 5001 }

payout-Unlocks_example :
    Unlocked test_config tenths purse coins test_economics
      (λ source dest value x w nx ny. coins-IsLawful.transfer_others source dest value x w nx ny)
      coins-IsLawful.transfer_credits
      info_of_five
      5
      (amount_due test_config tenths purse info_of_five 25)
      9000
      economy
      later
      (Calls.payout test_config tenths purse (Origin.signed 9) 5 later).1
unfolding Calls.payout try_payout payout_info do_payout compute_payout initialize_custody
    contains_key contains fold_balances get insert empty
payout-Unlocks_example =
    payout-Unlocks test_config tenths purse coins test_economics
      (λ source dest value x w nx ny. coins-IsLawful.transfer_others source dest value x w nx ny)
      coins-IsLawful.transfer_credits info_of_five 5 9 later economy 9000 later-InOrder refl refl
      (omega arith) (omega arith) (omega arith) (omega arith) (omega arith) refl refl refl
      (omega arith) (omega arith) refl

-- Ratios rounded down, parts rounded to the nearest number.
abbrev nearest : Perbill
nearest = record tenths {
  from_rational = λ a b. a * billion / b;
  times = λ r x. (r * x + 500000000) / billion;
}

nearest-Rounds : Rounds nearest
nearest-Rounds = record {
  from_rational_down = λ a b positive le. div-mul-le_self (a * billion) b;
  times_nearest = λ r x. omega arith;
}

custody-IsModest_example : IsModest (custody_config (λ c n d o. false)) nearest purse 1000000
custody-IsModest_example =
    custody-IsModest (λ c n d o. false) nearest purse 1000000 nearest-Rounds (omega arith)
