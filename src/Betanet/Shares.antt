-- ===== src/Betanet/Shares.antt =====
-- What xx-betanet-rewards/src/lib.rs pays for each option, and what it locks in leftover claims.
use xxchain.Common.{ℕ, ◌+◌, ◌*◌, ◌≤◌, ◌<◌, ◌≡◌, refl, arith, list_eq, nat_eq, u128_mod}
use xxchain.Frame.Perbill.{Perbill, billion}
use xxchain.Betanet.Options.{
  RewardOption, no_vesting, vesting_1_month, vesting_3_month, vesting_6_month, vesting_9_month,
  UserInfo, rewards, extra_rewards,
}
use xxchain.Betanet.Enact.{reward_amount}

-- A ratio that parts per billion can express is exact, and a part of a value is rounded to the
-- nearest number.
pub record RoundsToNearest (p : Perbill) : Type 0 where
  pub from_rational_exact :
      (a b c : ℕ) → a * billion ≡ c * b → 0 < b → c ≤ billion → p.from_rational a b ≡ c
  pub times_above : (r x : ℕ) → r ≤ billion → 2 * (r * x) ≤ 2 * billion * p.times r x + billion
  pub times_below : (r x : ℕ) → r ≤ billion → 2 * billion * p.times r x ≤ 2 * (r * x) + billion

-- The percentage of the reward that an option pays.
abbrev pub percentage : RewardOption → ℕ
percentage no_vesting = 2
percentage vesting_1_month = 12
percentage vesting_3_month = 45
percentage vesting_6_month = 100
percentage vesting_9_month = 120

-- An amount is a percentage of a value, up to half a unit: what is not a whole number is rounded to one of
-- the nearest.
abbrev pub IsShare : ℕ → ℕ → ℕ → Type 0
IsShare percent value amount =
    (2 * (100 * amount) ≤ 2 * (percent * value) + 100)
    × (2 * (percent * value) ≤ 2 * (100 * amount) + 100)

module _ (p : Perbill) (laws : RoundsToNearest p) where
  two : p.from_rational 2 100 ≡ 20000000
  two = laws.from_rational_exact 2 100 20000000 refl (omega arith) (omega arith)

  twelve : p.from_rational 12 100 ≡ 120000000
  twelve = laws.from_rational_exact 12 100 120000000 refl (omega arith) (omega arith)

  forty_five : p.from_rational 45 100 ≡ 450000000
  forty_five = laws.from_rational_exact 45 100 450000000 refl (omega arith) (omega arith)

  one : p.from_rational 1 1 ≡ billion
  one = laws.from_rational_exact 1 1 billion refl (omega arith) (omega arith)

  fifth : p.from_rational 2 10 ≡ 200000000
  fifth = laws.from_rational_exact 2 10 200000000 refl (omega arith) (omega arith)

  -- Half a unit at most is lost or gained by one part.
  part :
      (r percent x : ℕ)
      → r ≤ billion
      → r * x ≡ 10000000 * (percent * x)
      → (200 * p.times r x ≤ 2 * (percent * x) + 100)
        × (2 * (percent * x) ≤ 200 * p.times r x + 100)
  part r percent x le e = omega (arith, e, laws.times_above r x le, laws.times_below r x le)

  -- Each option pays its percentage of the reward, rounded by half a unit at most: 2, 12, 45, 100
  -- and 120 percent for no vesting and for 1, 3, 6 and 9 months; as long as twice the reward and
  -- one stay below the bound of the balance type.
  pub reward_amount-IsShare :
      (info : UserInfo)
      → 2 * info.reward + 1 < u128_mod
      → IsShare (percentage info.option) info.reward (reward_amount p info)
  unfolding reward_amount rewards extra_rewards
  reward_amount-IsShare info fits = go info.option
    where
      x : ℕ
      x = info.reward

      go :
          (o : RewardOption)
          → IsShare (percentage o) info.reward (reward_amount p (record info { option = o }))
      go no_vesting = rw two (omega (arith, part 20000000 2 x (omega arith) (omega arith)))
      go vesting_1_month =
          rw twelve (omega (arith, part 120000000 12 x (omega arith) (omega arith)))
      go vesting_3_month =
          rw forty_five (omega (arith, part 450000000 45 x (omega arith) (omega arith)))
      go vesting_6_month = rw one (omega (arith, part billion 100 x (omega arith) (omega arith)))
      go vesting_9_month =
          rw (fifth, one)
            (omega (
              arith,
              fits,
              part billion 100 x (omega arith) (omega arith),
              part 200000000 20 x (omega arith) (omega arith),
            ))
