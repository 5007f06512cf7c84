-- ===== src/Public/Pallet.antt =====
-- The storage and the calls of xx-public/src/lib.rs, over a currency and its vesting schedules.
use xxchain.Common.{
  ℕ, Bool, false, Option, none, some, List, [], ◌∷◌, leb, ◌==◌, nat_eq, u128_mod, wrapping_add,
}
use xxchain.Frame.{
  ok, xx_public, must_be_testnet_manager, must_be_sale_manager, not_enough_funds, Exec,
  DispatchResult, pure, ensure, modify, ◌>>=◌, ◌>>◌, within, try_for_each, Origin, ensure_signed,
  origin_or_root,
}
use xxchain.Frame.Currency.{Currency, Vesting}

pub data Event : Type 0 where
  testnet_manager_updated sale_manager_updated : Event

-- A vesting schedule: locked, per block, starting block.
abbrev pub Schedule : Type 0
Schedule = ℕ × (ℕ × ℕ)

pub record TransferData : Type 0 where
  pub destination : ℕ
  pub amount : ℕ
  pub schedules : Option (List Schedule)

-- `trait Config`, as far as it is data. The accounts are what the two `PalletId`s convert into.
pub record Config : Type 0 where
  pub testnet_account_id : ℕ
  pub sale_account_id : ℕ
  pub admin_origin : Origin → Bool

-- The pallet's storage and events, newest first, and the balances.
pub record Public (Bank : Type 0) : Type 0 where
  pub bank : Bank
  pub testnet_manager : Option ℕ
  pub sale_manager : Option ℕ
  pub events : List Event

pub record GenesisConfig : Type 0 where
  pub testnet_manager : Option ℕ
  pub testnet_balance : ℕ
  pub sale_manager : Option ℕ
  pub sale_balance : ℕ

-- `iter().fold(Zero::zero(), |acc, x| acc + x.amount)`
unfoldable pub fold_amounts : ℕ → List TransferData → ℕ
fold_amounts acc [] = acc
fold_amounts acc (x ∷ xs) = fold_amounts (wrapping_add u128_mod acc x.amount) xs

-- `if let Some(manager) = ... { who == manager } else { false }`
abbrev pub is_manager : Option ℕ → ℕ → Bool
is_manager none who = false
is_manager (some manager) who = who == manager

-- `accounts` of the handler that other pallets use.
unfoldable pub accounts : Config → List ℕ
accounts config = config.testnet_account_id ∷ config.sale_account_id ∷ []

module _ {Bank : Type 0} where
  abbrev pub on_bank : {A : Type 0} → Exec Bank A → Exec (Public Bank) A
  on_bank = within (λ s. s.bank) (λ s b. record s { bank = b })

  abbrev pub deposit_event : Event → DispatchResult (Public Bank)
  deposit_event e s = (ok tt, record s { events = e ∷ s.events })

module _ {Bank : Type 0} (currency : Currency Bank) (vesting : Vesting Bank) where
  -- `vs.iter().for_each(...)`, which ignores the results.
  unfoldable pub add_schedules : ℕ → List Schedule → Bank → Bank
  add_schedules who [] b = b
  add_schedules who (v ∷ vs) b =
      add_schedules who vs (vesting.add_vesting_schedule who v.0 v.1.0 v.1.1 b).1

  -- `if let Some(vs) = &d.schedules`
  unfoldable pub add_optional : ℕ → Option (List Schedule) → DispatchResult Bank
  add_optional who none = pure tt
  add_optional who (some vs) = modify (add_schedules who vs)

  -- The body of `try_for_each`.
  abbrev pub distribute_one : ℕ → TransferData → DispatchResult Bank
  distribute_one account d =
      currency.transfer account d.destination d.amount >> add_optional d.destination d.schedules

  unfoldable pub do_distribution : ℕ → List TransferData → DispatchResult Bank
  do_distribution account data_ b =
      let available = currency.free_balance b account in
      (do
        ensure (leb (fold_amounts 0 data_) available) (xx_public not_enough_funds)
        try_for_each (distribute_one account) data_)
        b

module _ (config : Config) {Bank : Type 0} (currency : Currency Bank) (vesting : Vesting Bank) where
  unfoldable pub ensure_admin : Origin → DispatchResult (Public Bank)
  ensure_admin = origin_or_root config.admin_origin

  unfoldable pub set_testnet_manager_account : Origin → ℕ → DispatchResult (Public Bank)
  set_testnet_manager_account origin who = do
    ensure_admin origin
    modify (λ s. record s { testnet_manager = some who })
    deposit_event testnet_manager_updated

  unfoldable pub set_sale_manager_account : Origin → ℕ → DispatchResult (Public Bank)
  set_sale_manager_account origin who = do
    ensure_admin origin
    modify (λ s. record s { sale_manager = some who })
    deposit_event sale_manager_updated

  unfoldable pub testnet_distribute : Origin → List TransferData → DispatchResult (Public Bank)
  testnet_distribute origin data_ s =
      (do
        who ← ensure_signed origin
        ensure (is_manager s.testnet_manager who) (xx_public must_be_testnet_manager)
        on_bank (do_distribution currency vesting config.testnet_account_id data_))
        s

  unfoldable pub sale_distribute : Origin → List TransferData → DispatchResult (Public Bank)
  sale_distribute origin data_ s =
      (do
        who ← ensure_signed origin
        ensure (is_manager s.sale_manager who) (xx_public must_be_sale_manager)
        on_bank (do_distribution currency vesting config.sale_account_id data_))
        s

  -- `if let Some(manager) = ... { put(manager) }`
  abbrev pub put_or : Option ℕ → Option ℕ → Option ℕ
  put_or none old = old
  put_or (some manager) old = some manager

  -- The genesis build.
  unfoldable pub genesis_build : GenesisConfig → Public Bank → Public Bank
  genesis_build g s = record s {
    testnet_manager = put_or g.testnet_manager s.testnet_manager;
    sale_manager = put_or g.sale_manager s.sale_manager;
    bank =
        currency.make_free_balance_be config.sale_account_id g.sale_balance
          (currency.make_free_balance_be config.testnet_account_id g.testnet_balance s.bank);
  }
