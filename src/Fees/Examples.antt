-- ===== src/Fees/Examples.antt =====
-- A run of runtime/common/src/impls.rs.
use xxchain.Common.{◌+◌, ◌-◌, ◌*◌, ◌/◌, refl, some, [], ◌∷◌, arith}
use xxchain.Frame.Coins.{Balances, coins, put}
use xxchain.Fees.{FeeHandlers, AreLawful, Shared, on_unbalanceds, on_unbalanceds-Shared}

-- The treasury is account 3.
abbrev test_handlers : FeeHandlers Balances
test_handlers = record {
  ration =
      λ amount first second. let part = amount * first / (first + second) in (part, amount - part);
  merge_into = λ a b. a + b;
  treasury_on_unbalanced = λ amount b. put 3 (b 3 + amount) b;
  resolve_creating = λ who amount b. put who (b who + amount) b;
}

test_handlers-AreLawful : AreLawful coins 3 test_handlers
test_handlers-AreLawful = record {
  ration_parts = λ amount first second h small. refl;
  merges = λ a b h. refl;
  treasury_credits = λ amount b h. ground arith;
  treasury_others = λ amount x b ne. ground arith;
  resolve_credits = λ who amount b h. ground arith;
  resolve_others = λ who amount x b ne. ground arith;
}

-- Fees of 101 and tips of 7; account 5 is the author.
on_unbalanceds-Shared_example :
    Shared coins 3
      (some 5)
      101
      7
      (λ a. 10)
      (on_unbalanceds test_handlers (some 5) (101 ∷ 7 ∷ []) (λ a. 10))
on_unbalanceds-Shared_example =
    on_unbalanceds-Shared coins 3 test_handlers test_handlers-AreLawful (some 5) 101 (7 ∷ [])
      (λ a. 10) (omega arith) (omega arith) (omega arith) (omega arith) (omega arith)
