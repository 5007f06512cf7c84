-- ===== src/Swap/Parts.antt =====
-- The parts of `transfer_native` of swap/src/lib.rs: its guards, and what comes after them.
use xxchain.Common.{
  ℕ, ◌-◌, ◌≡◌, refl, true, ◌⊎◌, List, inl, inr, Bool-cases, leb, min, u128_mod, wrapping_add,
}
use xxchain.Frame.{
  Origin, DispatchResult, Refuses, swap, destination_not_whitelisted, insufficient_balance, ◌>>◌,
}
use xxchain.Frame.Currency.{Currency}
use xxchain.Chainbridge.Storage.{is_whitelisted}
use xxchain.Chainbridge.Transfers.{transfer_fungible}
use xxchain.Swap.Pallet.{Config, Swap, on_bank, on_bridge, pay_fee, transfer_native}

module _ (config : Config) {Bank : Type 0} (currency : Currency Bank) (source amount : ℕ)
    (recipient : List ℕ) (dest_id : ℕ) where
  abbrev pub announce : DispatchResult (Swap Bank)
  announce =
      on_bridge
        (transfer_fungible dest_id config.native_token_id recipient (min amount (u128_mod - 1)))

  abbrev pub pay : DispatchResult (Swap Bank)
  pay = on_bank (currency.transfer source config.bridge.account_id amount)

  abbrev pub move : DispatchResult (Swap Bank)
  move = pay >> announce

  -- The fee is that of the state in which the call starts.
  abbrev pub charge_fee : Swap Bank → DispatchResult (Swap Bank)
  charge_fee s = pay_fee config currency source s.swap_fee s.fee_destination

  -- The guards refuse the call with nothing changed, or the chain is known and what comes after them runs.
  pub transfer_native-cases :
      (s : Swap Bank)
      → let run = transfer_native config currency (Origin.signed source) amount recipient dest_id in
        Refuses run s
        ⊎ ((is_whitelisted s.bridge dest_id ≡ true) × (run s ≡ (charge_fee s >> move) s))
  unfolding transfer_native
  transfer_native-cases s = elim (Bool-cases (is_whitelisted s.bridge dest_id)) [
    | inl known ↦
        elim (Bool-cases
          (leb (wrapping_add u128_mod amount s.swap_fee) (currency.free_balance s.bank source))) [
            | inl enough ↦ inr (known, rw (known, enough) refl)
            | inr short ↦ inl (swap insufficient_balance, rw (known, short) refl)
          ]
    | inr unknown ↦ inl (swap destination_not_whitelisted, rw unknown refl)
  ]
