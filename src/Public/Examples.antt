-- ===== src/Public/Examples.antt =====
-- Runs of xx-public/src/lib.rs on a small currency.
use xxchain.Common.{refl, none, some, List, [], ◌∷◌, arith, nat_eq}
use xxchain.Frame.Coins.{
  Balances, put, coins, coins-IsLawful, full_vesting, full_vesting-KeepsBalances,
}
use xxchain.Public.Pallet.{TransferData, add_schedules, add_optional, fold_amounts, do_distribution}
use xxchain.Public.Distribution.{Distributed, do_distribution-Distributed}

abbrev sale_balances : Balances
sale_balances = put 900 1000 (λ a. 0)

abbrev test_data : List TransferData
test_data =
    record { destination = 5; amount = 300; schedules = some ((100, (1, 10)) ∷ []) }
    ∷ record { destination = 6; amount = 200; schedules = none }
    ∷ record { destination = 5; amount = 50; schedules = none }
    ∷ []

do_distribution-Distributed_example :
    Distributed coins 900 test_data sale_balances
      (do_distribution coins full_vesting 900 test_data sale_balances).1
unfolding do_distribution add_optional add_schedules fold_amounts
do_distribution-Distributed_example =
    do_distribution-Distributed coins full_vesting coins-IsLawful full_vesting-KeepsBalances 900
      test_data sale_balances (omega arith, (omega arith, (omega arith, tt))) refl
