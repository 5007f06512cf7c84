-- ===== src/Economics/Examples.antt =====
-- Runs of xx-economics/src/inflation.rs.
use native.Mathlib.Nat.{mul-le-mul}
use xxchain.Common.{
  ℕ, ◌+◌, ◌-◌, ◌*◌, ◌/◌, ◌≤◌, ◌≡◌, refl, false, some, List, [], ◌∷◌, arith, min, inl,
}
use xxchain.Frame.Coins.{Balances, put, coins}
use xxchain.Economics.Rewards.{
  Imbalances, AreLawful, Reports, on_nonzero_unbalanced, on_remainder, rewards-Reports,
}
use xxchain.Frame.Perbill.{Perbill, IsPerbill, billion}
use xxchain.Economics.Pallet.{Config, Economics, IdealInterestPoint}
use xxchain.Economics.Inflation.{get_ideal_interest, compute_ideal_interest, position, era_payout}
use xxchain.Economics.Interest.{IsWithin, get_ideal_interest-IsWithin, compute_ideal_interest-shift}
use xxchain.Economics.Payout.{Pays, era_payout-Pays}

-- Parts per billion, rounded down.
abbrev test_perbill : Perbill
test_perbill = record {
  from_rational = λ a b. min (a * billion / b) billion;
  times = λ r x. r * x / billion;
  times_ratio = λ r x. r * x / billion;
  saturating_add = λ a b. min (a + b) billion;
  saturating_sub = λ a b. a - b;
  compute_inflation = λ a b c. min a billion;
}

part_bound : (r x : ℕ) → r ≤ billion → r * x / billion ≤ x
part_bound r x h = let le : r * x ≤ billion * x = mul-le-mul h (omega arith) in omega arith

part_mono : (r s x y : ℕ) → r ≤ s → x ≤ y → r * x / billion ≤ s * y / billion
part_mono r s x y h k = let le : r * x ≤ s * y = mul-le-mul h k in omega arith

test_perbill-IsPerbill : IsPerbill test_perbill
test_perbill-IsPerbill = record {
  from_rational_bound = λ a b. omega arith;
  times_bound = part_bound;
  times_mono = λ r s x h. part_mono r s x x h (omega arith);
  times_mono_value = λ r x y h. part_mono r r x y (omega arith) h;
  times_ratio_bound = part_bound;
  times_ratio_mono = λ r s x h. part_mono r s x x h (omega arith);
  saturating_add_sum = λ a b. refl;
  saturating_sub_difference = λ a b. refl;
  compute_inflation_bound = λ a b c. omega arith;
}

abbrev test_config : Config
test_config = record {
  rewards_account_id = 700;
  public_accounts = 800 ∷ 900 ∷ [];
  era_duration = 10;
  admin_origin = λ o. false;
}

abbrev test_points : List IdealInterestPoint
test_points =
    record { block = 0; interest = 500000000 } ∷ record { block = 100; interest = 300000000 } ∷ []

-- Half of the way down, less half an era.
interest_halfway : get_ideal_interest test_config test_perbill test_points 50 ≡ some 410000000
unfolding get_ideal_interest compute_ideal_interest position
interest_halfway = refl

abbrev first_point : IdealInterestPoint
first_point = record { block = 0; interest = 500000000 }

abbrev second_point : IdealInterestPoint
second_point = record { block = 100; interest = 300000000 }

get_ideal_interest-IsWithin_example :
    IsWithin 300000000 500000000 (get_ideal_interest test_config test_perbill test_points 50)
get_ideal_interest-IsWithin_example =
    get_ideal_interest-IsWithin test_config test_perbill test_perbill-IsPerbill first_point
      (second_point ∷ []) 50 300000000 500000000
      ((omega arith, omega arith), ((omega arith, omega arith), tt)) (omega arith)

-- Twenty blocks after the start of the moved segment the interest is that of a block whose number is
-- 1020: the full way down.
compute_ideal_interest-shift_example :
    compute_ideal_interest test_config test_perbill 1020
      (record { block = 1000; interest = 500000000 })
      (record { block = 1100; interest = 300000000 })
    ≡ compute_ideal_interest test_config test_perbill 1020 first_point second_point
compute_ideal_interest-shift_example =
    compute_ideal_interest-shift test_config test_perbill 1020 1000 first_point second_point
      (omega arith) (omega arith)

moved_segment :
    compute_ideal_interest test_config test_perbill 1020
      (record { block = 1000; interest = 500000000 })
      (record { block = 1100; interest = 300000000 })
    ≡ 300000000
unfolding compute_ideal_interest
moved_segment = refl

abbrev economy : Economics Balances
economy = record {
  inflation_params = record {
    min_inflation = 25000000;
    ideal_stake = 500000000;
    falloff = 500000000;
  };
  interest_points = test_points;
  ideal_liquidity_stake = 1000;
  liquidity_rewards = 5000;
  block_number = 50;
  events = [];
  bank = put 700 100000 (λ a. 0);
}

era_payout-Pays_example :
    (r : ℕ) × (paid : (ℕ × ℕ) × Economics Balances) × (300000000 ≤ r)
    × (r ≤ 500000000)
    × (era_payout test_config test_perbill coins (λ b. 0) 400000 1000000 86400000 economy
        ≡ some paid)
    × Pays test_config test_perbill coins (λ b. 0) r 1000000 86400000 economy paid
era_payout-Pays_example =
    era_payout-Pays test_config test_perbill test_perbill-IsPerbill coins (λ b. 0) first_point
      (second_point ∷ []) 300000000 500000000 400000 1000000 86400000 economy refl
      ((omega arith, omega arith), ((omega arith, omega arith), tt)) (omega arith) (omega arith)
      (omega arith)

-- Imbalances of balances that are not tied to an issuance.
abbrev test_imbalances : Imbalances Balances
test_imbalances = record {
  settle = λ account amount b. put account (b account - amount) b;
  burn = λ amount b. b;
  drop_positive = λ amount b. b;
  split = λ amount at_most. (min amount at_most, amount - at_most);
  reward_remainder = λ amount b. b;
}

test_imbalances-AreLawful : AreLawful coins test_imbalances
test_imbalances-AreLawful = record {
  split_parts = λ amount at_most. refl;
  settle_debits = λ account amount b le. inl (ground arith);
  drop_keeps = λ amount x b. refl;
}

rewards-Reports_example :
    Reports test_config coins test_imbalances 150000 100000 []
      (on_nonzero_unbalanced test_config coins test_imbalances 150000 economy).events
    × Reports test_config coins test_imbalances 150000 100000 []
        (on_remainder test_config coins test_imbalances 150000 economy).events
rewards-Reports_example =
    rewards-Reports test_config coins test_imbalances 150000 economy test_imbalances-AreLawful
