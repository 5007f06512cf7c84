-- ===== src/Frame/Perbill.antt =====
-- `sp_runtime::Perbill` and `pallet_staking_reward_fn::compute_inflation`, which this repository does
-- not implement: operations on parts per billion, with the documented behaviour that the code relies
-- on stated as laws.
use xxchain.Common.{ℕ, ◌+◌, ◌-◌, ◌^◌, ◌≤◌, ◌≡◌, min}

abbrev pub billion : ℕ
billion = 10 ^ 9

pub record Perbill : Type 0 where
  -- `Perbill::from_rational(p, q)`
  pub from_rational : ℕ → ℕ → ℕ
  -- `ratio * value`, for a value that is a number and for one that is a ratio
  pub times : ℕ → ℕ → ℕ
  pub times_ratio : ℕ → ℕ → ℕ
  pub saturating_add : ℕ → ℕ → ℕ
  pub saturating_sub : ℕ → ℕ → ℕ
  -- `compute_inflation(stake, ideal_stake, falloff)`
  pub compute_inflation : ℕ → ℕ → ℕ → ℕ

-- A ratio is at most one; a part of a value is at most the value, and grows with the ratio.
pub record IsPerbill (p : Perbill) : Type 0 where
  pub from_rational_bound : (a b : ℕ) → p.from_rational a b ≤ billion
  pub times_bound : (r x : ℕ) → r ≤ billion → p.times r x ≤ x
  pub times_mono : (r s x : ℕ) → r ≤ s → p.times r x ≤ p.times s x
  pub times_mono_value : (r x y : ℕ) → x ≤ y → p.times r x ≤ p.times r y
  pub times_ratio_bound : (r x : ℕ) → r ≤ billion → p.times_ratio r x ≤ x
  pub times_ratio_mono : (r s x : ℕ) → r ≤ s → p.times_ratio r x ≤ p.times_ratio s x
  pub saturating_add_sum : (a b : ℕ) → p.saturating_add a b ≡ min (a + b) billion
  pub saturating_sub_difference : (a b : ℕ) → p.saturating_sub a b ≡ a - b
  pub compute_inflation_bound : (a b c : ℕ) → p.compute_inflation a b c ≤ billion
