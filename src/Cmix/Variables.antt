-- ===== src/Cmix/Variables.antt =====
-- The data of xx-cmix/src/cmix.rs. Hashes, country codes and parts per million are numbers.
use xxchain.Common.{ℕ, Option, List}

pub record SoftwareHashes : Type 0 where
  pub server : ℕ
  pub fatbin : ℕ
  pub libpow : ℕ
  pub gateway : ℕ
  pub scheduling : ℕ
  pub wrapper : ℕ
  pub udb : ℕ
  pub notifications : ℕ
  pub extra : Option (List ℕ)

pub record RewardPoints : Type 0 where
  pub success : ℕ
  pub failure : ℕ
  pub block : ℕ

pub record Performance : Type 0 where
  pub period : ℕ
  pub points : RewardPoints
  pub countries : List (ℕ × ℕ)
  pub multipliers : List (ℕ × ℕ)

pub record Timeouts : Type 0 where
  pub precomputation : ℕ
  pub realtime : ℕ
  pub advertisement : ℕ

pub record Scheduling : Type 0 where
  pub team_size : ℕ
  pub batch_size : ℕ
  pub min_delay : ℕ
  pub pool_threshold : ℕ

pub record UserRegistration : Type 0 where
  pub max_registrations : ℕ
  pub period : ℕ

pub record Variables : Type 0 where
  pub performance : Performance
  pub timeouts : Timeouts
  pub scheduling : Scheduling
  pub registration : UserRegistration

-- `Variables::get_block_points`
abbrev pub block_points : Variables → ℕ
block_points v = v.performance.points.block
