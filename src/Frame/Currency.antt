-- ===== src/Frame/Currency.antt =====
-- `frame_support::traits::Currency` and the vesting trait, which the pallets call and this
-- repository does not implement: operations of some bank, with the behaviour that the pallets rely
-- on stated as laws.
use xxchain.Common.{ℕ, ◌+◌, ◌-◌, ◌≤◌, ◌<◌, ◌≡◌, ◌≢◌, ◌⊎◌}
use xxchain.Frame.Dispatch.{ok, err, DispatchError, DispatchResult}

pub record Currency (Bank : Type 0) : Type 0 where
  pub existential_deposit : ℕ
  pub free_balance : Bank → ℕ → ℕ
  -- `transfer(source, dest, value, AllowDeath)`
  pub transfer : ℕ → ℕ → ℕ → DispatchResult Bank
  pub make_free_balance_be : ℕ → ℕ → Bank → Bank

-- What a source holds after a transfer: the rest, unless less than the existential deposit is
-- left and the account is reaped.
abbrev pub LeavesRest : ℕ → ℕ → ℕ → Type 0
LeavesRest deposit rest held = (held ≡ rest) ⊎ ((held ≡ 0) × (rest < deposit))

pub record IsLawful {Bank : Type 0} (c : Currency Bank) : Type 0 where
  -- A transfer that fails writes nothing.
  pub transfer_refused :
      (source dest value : ℕ) (b : Bank) (e : DispatchError)
      → (c.transfer source dest value b).0 ≡ err e
      → (c.transfer source dest value b).1 ≡ b
  -- A transfer between two accounts needs the value in the source.
  pub transfer_covered :
      (source dest value : ℕ) (b : Bank)
      → source ≢ dest
      → (c.transfer source dest value b).0 ≡ ok tt
      → value ≤ c.free_balance b source
  pub transfer_debits :
      (source dest value : ℕ) (b : Bank)
      → source ≢ dest
      → (c.transfer source dest value b).0 ≡ ok tt
      → LeavesRest c.existential_deposit
          (c.free_balance b source - value)
          (c.free_balance (c.transfer source dest value b).1 source)
  pub transfer_credits :
      (source dest value : ℕ) (b : Bank)
      → source ≢ dest
      → (c.transfer source dest value b).0 ≡ ok tt
      → c.free_balance (c.transfer source dest value b).1 dest ≡ c.free_balance b dest + value
  pub transfer_others :
      (source dest value x : ℕ) (b : Bank)
      → x ≢ source
      → x ≢ dest
      → c.free_balance (c.transfer source dest value b).1 x ≡ c.free_balance b x
  -- A transfer to the source itself moves nothing.
  pub transfer_itself :
      (source value x : ℕ) (b : Bank)
      → c.free_balance (c.transfer source source value b).1 x ≡ c.free_balance b x

-- `add_vesting_schedule(who, locked, per_block, starting_block)` of the vesting trait.
pub record Vesting (Bank : Type 0) : Type 0 where
  pub add_vesting_schedule : ℕ → ℕ → ℕ → ℕ → DispatchResult Bank

-- A schedule locks a part of a balance, and moves nothing.
pub record KeepsBalances {Bank : Type 0} (c : Currency Bank) (v : Vesting Bank) : Type 0 where
  pub vesting_keeps :
      (who locked per_block start x : ℕ) (b : Bank)
      → c.free_balance (v.add_vesting_schedule who locked per_block start b).1 x
        ≡ c.free_balance b x
