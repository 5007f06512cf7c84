-- ===== src/Swap/Pallet.antt =====
-- The storage and the calls of swap/src/lib.rs, over the bridge pallet and a currency.
use xxchain.Common.{ℕ, ◌-◌, Bool, Option, none, some, List, ◌∷◌, leb, min, u128_mod, wrapping_add}
use xxchain.Frame.{
  ok, bad_origin, swap, destination_not_whitelisted, insufficient_balance, Exec, DispatchResult,
  pure, ok_or, modify, ensure, ◌>>=◌, ◌>>◌, within, Origin, ensure_signed, origin_or_root,
}
use xxchain.Frame.Currency.{Currency}
use xxchain.Chainbridge.Storage.{Bridge, is_whitelisted}
use xxchain.Chainbridge.Storage
use xxchain.Chainbridge.Transfers.{transfer_fungible}
use xxchain.Chainbridge.Voting.{ensure_bridge}

pub data Event : Type 0 where
  fee_changed : ℕ → Event
  fee_destination_changed : ℕ → Event

-- `trait Config`, as far as it is data; the runtime's `BridgeOrigin` is `EnsureBridge`.
pub record Config : Type 0 where
  pub bridge : Storage.Config
  pub native_token_id : List ℕ
  pub admin_origin : Origin → Bool

-- The pallet's storage and events, newest first, beside the pallets that it calls.
pub record Swap (Bank : Type 0) : Type 0 where
  pub bridge : Bridge
  pub bank : Bank
  pub swap_fee : ℕ
  pub fee_destination : Option ℕ
  pub events : List Event

module _ {Bank : Type 0} where
  abbrev pub on_bank : {A : Type 0} → Exec Bank A → Exec (Swap Bank) A
  on_bank = within (λ s. s.bank) (λ s b. record s { bank = b })

  abbrev pub on_bridge : {A : Type 0} → Exec Bridge A → Exec (Swap Bank) A
  on_bridge = within (λ s. s.bridge) (λ s b. record s { bridge = b })

  abbrev pub deposit_event : Event → DispatchResult (Swap Bank)
  deposit_event e s = (ok tt, record s { events = e ∷ s.events })

module _ (config : Config) {Bank : Type 0} (currency : Currency Bank) where
  -- `if let Some(dest) = FeeDestination::get() { transfer(fee)? }`
  abbrev pub pay_fee : ℕ → ℕ → Option ℕ → DispatchResult (Swap Bank)
  pay_fee source fee none = pure tt
  pay_fee source fee (some dest) = on_bank (currency.transfer source dest fee)

  unfoldable pub transfer_native : Origin → ℕ → List ℕ → ℕ → DispatchResult (Swap Bank)
  transfer_native origin amount recipient dest_id s =
      let fee = s.swap_fee in
      let bridge_id = config.bridge.account_id in
      (do
        source ← ensure_signed origin
        ensure (is_whitelisted s.bridge dest_id) (swap destination_not_whitelisted)
        ensure (leb (wrapping_add u128_mod amount fee) (currency.free_balance s.bank source))
            (swap insufficient_balance)
        pay_fee source fee s.fee_destination
        on_bank (currency.transfer source bridge_id amount)
        on_bridge (
            transfer_fungible dest_id config.native_token_id recipient (min amount (u128_mod - 1))))
        s

  unfoldable pub transfer : Origin → ℕ → ℕ → DispatchResult (Swap Bank)
  transfer origin to amount = do
    source ← ok_or (ensure_bridge config.bridge origin) bad_origin
    on_bank (currency.transfer source to amount)

  unfoldable pub ensure_admin : Origin → DispatchResult (Swap Bank)
  ensure_admin = origin_or_root config.admin_origin

  unfoldable pub set_swap_fee : Origin → ℕ → DispatchResult (Swap Bank)
  set_swap_fee origin fee = do
    ensure_admin origin
    modify (λ s. record s { swap_fee = fee })
    deposit_event (fee_changed fee)

  unfoldable pub set_fee_destination : Origin → ℕ → DispatchResult (Swap Bank)
  set_fee_destination origin dest = do
    ensure_admin origin
    modify (λ s. record s { fee_destination = some dest })
    deposit_event (fee_destination_changed dest)
