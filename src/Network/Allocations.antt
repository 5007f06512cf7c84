-- ===== src/Network/Allocations.antt =====
-- Which allocations the custody's schedule suits, with the durations of runtime/xxnetwork/src/lib.rs.
use native.Mathlib.Nat.{mul-le-mul_left, mul-le-mul_right}
use xxchain.Common.{ℕ, ◌+◌, ◌*◌, ◌/◌, ◌≤◌, ◌<◌, Bool, arith}
use xxchain.Frame.{Origin}
use xxchain.Frame.Perbill.{Perbill, billion}
use xxchain.Custody.Pallet.{Externals}
use xxchain.Custody.Payout.{compute_payout}
use xxchain.Custody.Square.{IsModest}
use xxchain.Network.Constants.{weeks, years}
use xxchain.Network.Origins.{Collective, custody_config}

-- A ratio is rounded down, and a part of a value to the nearest number.
pub record Rounds (p : Perbill) : Type 0 where
  pub from_rational_down : (a b : ℕ) → 0 < b → a ≤ b → p.from_rational a b * b ≤ a * billion
  pub times_nearest : (r x : ℕ) → 2 * (billion * p.times r x) ≤ 2 * (r * x) + billion

module _ (at_least : Collective → ℕ → ℕ → Origin → Bool) (perbill : Perbill) {W : Type 0}
    (externals : Externals W) where
  -- With a payout every week for three years, and ratios that are rounded down to parts per billion: the
  -- weekly payouts of an allocation, each rounded to the nearest number, add up to no more than the
  -- allocation if it is at least 22,792, which is less than a forty-thousandth of a coin.
  pub custody-IsModest :
      (allocation : ℕ)
      → Rounds perbill
      → 22792 ≤ allocation
      → IsModest (custody_config at_least) perbill externals allocation
  unfolding compute_payout
  custody-IsModest allocation rounds large block within =
      let ratio = perbill.from_rational (1 * weeks) (3 * years) in
      let part = perbill.times ratio allocation in
      let down = rounds.from_rational_down (1 * weeks) (3 * years) (omega arith) (omega arith) in
      let nearest = rounds.times_nearest ratio allocation in
      let small : ratio ≤ 6388318 = omega (arith, down) in
      let weighted : ratio * allocation ≤ 6388318 * allocation =
        mul-le-mul_right allocation small in
      let chunks : part * (block / (1 * weeks)) ≤ part * 156 =
        mul-le-mul_left part (omega (arith, within)) in
      omega (arith, nearest, weighted, chunks, large)
