-- ===== src/Frame/Coins.antt =====
-- A small currency for runs of the pallets, which shows that the laws of Currency can hold.
use xxchain.Common.{ℕ, ◌+◌, ◌-◌, refl, arith, inl, inr, Bool-cases, leb, nat_beq, if◌then◌else◌}
use xxchain.Frame.Dispatch.{ok, err, other}
use xxchain.Frame.Currency.{Currency, IsLawful, Vesting, KeepsBalances}

-- Balances of accounts, and a currency that lets a source give what it has.
abbrev pub Balances : Type 0
Balances = ℕ → ℕ

abbrev pub put : ℕ → ℕ → Balances → Balances
put a n b x = if nat_beq a x then n else b x

abbrev pub give : ℕ → ℕ → ℕ → Balances → Balances
give source dest value b = let c = put source (b source - value) b in put dest (c dest + value) c

abbrev pub coins : Currency Balances
coins = record {
  existential_deposit = 1;
  free_balance = λ b a. b a;
  transfer = λ source dest value b.
      if leb value (b source) then (ok tt, give source dest value b) else (err (other 0), b);
  make_free_balance_be = put;
}

pub coins-IsLawful : IsLawful coins
coins-IsLawful = record {
  transfer_refused = λ source dest value b e. elim (Bool-cases (leb value (b source))) [
    | inl enough ↦ rw enough (λ h. cc)
    | inr short ↦ rw short (λ h. refl)
  ];
  transfer_covered = λ source dest value b ne h. ground arith;
  transfer_debits = λ source dest value b ne h. inl (ground arith);
  transfer_credits = λ source dest value b ne h. ground arith;
  transfer_others = λ source dest value x b nx ny. ground arith;
  transfer_itself = λ source value x b. ground arith;
}

-- No more schedules fit.
abbrev pub full_vesting : Vesting Balances
full_vesting = record { add_vesting_schedule = λ who locked per_block start b. (err (other 1), b) }

pub full_vesting-KeepsBalances : KeepsBalances coins full_vesting
full_vesting-KeepsBalances = record { vesting_keeps = λ who locked per_block start x b. refl }
