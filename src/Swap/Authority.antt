-- ===== src/Swap/Authority.antt =====
-- Who may call what in swap/src/lib.rs.
use xxchain.Common.{
  ℕ, ◌≡◌, refl, Bool, false, ◌||◌, ◌&&◌, some, List, arith, inl, inr, Bool-cases, leb, ◌==◌, nat_eq,
  u128_mod, wrapping_add,
}
use xxchain.Frame.{
  Refuses, Origin, bad_origin, swap, destination_not_whitelisted, insufficient_balance,
  DispatchResult, is_root, ◌>>◌, modify,
}
use xxchain.Frame.Currency.{Currency}
use xxchain.Chainbridge.Storage.{is_whitelisted}
use xxchain.Chainbridge.Voting.{ensure_bridge}
use xxchain.Swap.Pallet.{Config, Swap}
use xxchain.Swap.Pallet

-- `enum Call`.
pub data Call : Type 0 where
  transfer_native : ℕ → List ℕ → ℕ → Call
  transfer : ℕ → ℕ → Call
  set_swap_fee set_fee_destination : ℕ → Call

module _ (config : Config) {Bank : Type 0} (currency : Currency Bank) where
  unfoldable pub run : Origin → Call → DispatchResult (Swap Bank)
  run o (transfer_native amount recipient dest_id) =
      Pallet.transfer_native config currency o amount recipient dest_id
  run o (transfer to amount) = Pallet.transfer config currency o to amount
  run o (set_swap_fee fee) = Pallet.set_swap_fee config currency o fee
  run o (set_fee_destination dest) = Pallet.set_fee_destination config currency o dest

  -- A signed account that holds the amount and the fee, whose sum is taken on 128 bits.
  abbrev pub can_pay : Swap Bank → Origin → ℕ → Bool
  can_pay s (Origin.signed who) amount =
      leb (wrapping_add u128_mod amount s.swap_fee) (currency.free_balance s.bank who)
  can_pay s _ amount = false

  abbrev pub is_bridge : Origin → Bool
  is_bridge (Origin.signed who) = who == config.bridge.account_id
  is_bridge _ = false

  -- What each call asks for.
  abbrev pub permitted : Swap Bank → Origin → Call → Bool
  permitted s o (transfer_native amount recipient dest_id) =
      is_whitelisted s.bridge dest_id && can_pay s o amount
  permitted s o (transfer to amount) = is_bridge o
  permitted s o _ = config.admin_origin o || is_root o

  transfer_native-Refuses :
      (s : Swap Bank) (o : Origin) (amount : ℕ) (recipient : List ℕ) (dest_id : ℕ)
      → (is_whitelisted s.bridge dest_id && can_pay s o amount) ≡ false
      → Refuses (Pallet.transfer_native config currency o amount recipient dest_id) s
  unfolding Pallet.transfer_native
  transfer_native-Refuses s (Origin.signed who) amount recipient dest_id h =
      elim (Bool-cases (is_whitelisted s.bridge dest_id)) [
        | inl known ↦
            let poor : can_pay s (Origin.signed who) amount ≡ false = ground arith in
            (swap insufficient_balance, rw (known, poor) refl)
        | inr unknown ↦ (swap destination_not_whitelisted, rw unknown refl)
      ]
  transfer_native-Refuses s o amount recipient dest_id h = (bad_origin, refl)

  admin-Refuses :
      (s : Swap Bank) (o : Origin) (m : DispatchResult (Swap Bank))
      → (config.admin_origin o || is_root o) ≡ false
      → Refuses (Pallet.ensure_admin config currency o >> m) s
  unfolding Pallet.ensure_admin
  admin-Refuses s Origin.root m h = absurd (ground arith)
  admin-Refuses s o m h = (bad_origin, ground arith)

  transfer-Refuses :
      (s : Swap Bank) (o : Origin) (to amount : ℕ)
      → is_bridge o ≡ false
      → Refuses (Pallet.transfer config currency o to amount) s
  unfolding Pallet.transfer ensure_bridge
  transfer-Refuses s (Origin.signed who) to amount h = (bad_origin, rw h refl)
  transfer-Refuses s o to amount h = (bad_origin, refl)

  -- A call that is not permitted fails and changes nothing: a transfer of native tokens without a
  -- signature, to a chain that is not whitelisted or by an account that does not hold the amount
  -- and the fee; a transfer out of the bridge by anyone but the bridge's account; a change of the
  -- fee or of its destination by anyone but the administrator or root.
  pub swap-Refuses :
      (s : Swap Bank) (o : Origin) (c : Call) → permitted s o c ≡ false → Refuses (run o c) s
  unfolding run Pallet.set_swap_fee Pallet.set_fee_destination
  swap-Refuses s o (transfer_native amount recipient dest_id) h =
      transfer_native-Refuses s o amount recipient dest_id h
  swap-Refuses s o (transfer to amount) h = transfer-Refuses s o to amount h
  swap-Refuses s o (set_swap_fee fee) h =
      admin-Refuses s o
        (modify (λ s. record s { swap_fee = fee }) >> Pallet.deposit_event (Pallet.fee_changed fee))
        h
  swap-Refuses s o (set_fee_destination dest) h =
      admin-Refuses s o
        (modify (λ s. record s { fee_destination = some dest })
          >> Pallet.deposit_event (Pallet.fee_destination_changed dest))
        h
