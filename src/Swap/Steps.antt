-- ===== src/Swap/Steps.antt =====
-- The calls of swap/src/lib.rs as steps of the vault.
use xxchain.Common.{ℕ, ◌≡◌, ◌≢◌, refl, ap, some, arith, inl, inr, Bool-cases, nat_eq, ◌==◌}
use xxchain.Frame.{ok, Origin, DispatchResult, ◌>>◌, modify, Result-cases}
use xxchain.Frame.Currency.{Currency, IsLawful}
use xxchain.Chainbridge.Voting.{ensure_bridge}
use xxchain.Swap.Pallet
use xxchain.Swap.Pallet.{Config, Swap, on_bank, on_bridge, pay_fee}
use xxchain.Swap.Authority.{Call, transfer_native, transfer, set_swap_fee, set_fee_destination, run}
use xxchain.Swap.Locking.{Steps, transfer_native-Steps}
use xxchain.Swap.Vault.{idle, action, Fair, IsApart}

module _ (config : Config) {Bank : Type 0} (currency : Currency Bank)
    (lawful : IsLawful currency) where
  open currency use {free_balance, existential_deposit}

  abbrev account : ℕ
  account = config.bridge.account_id

  payment-Steps :
      (to amount : ℕ) (s : Swap Bank)
      → let r = on_bank (currency.transfer account to amount) s in
        Steps config currency lawful s (action config currency (transfer to amount) r.0) r
  payment-Steps to amount s = elim (Result-cases (currency.transfer account to amount s.bank).0) [
    | inl (u, done) ↦ elim (Bool-cases (to == account)) [
      | inl itself ↦
          let same : to ≡ account = ground arith in
          rw (done, itself) (rw same (lawful.transfer_itself account amount account s.bank), refl)
      | inr other ↦
          let ne : account ≢ to = ground arith in
          rw (done, other)
            (
              lawful.transfer_covered account to amount s.bank ne done,
              lawful.transfer_debits account to amount s.bank ne done,
              refl,
            )
    ]
    | inr (e, failed) ↦ rw failed (
      ap (λ (b : Bank). free_balance b account)
          (lawful.transfer_refused account to amount s.bank e failed),
      refl,
    )
  ]

  transfer-Steps :
      (o : Origin) (to amount : ℕ) (s : Swap Bank)
      → let r = Pallet.transfer config currency o to amount s in
        Steps config currency lawful s (action config currency (transfer to amount) r.0) r
  unfolding Pallet.transfer ensure_bridge
  transfer-Steps (Origin.signed who) to amount s = elim (Bool-cases (who == account)) [
    | inl itself ↦ rw itself (payment-Steps to amount s)
    | inr other ↦ rw other (refl, refl)
  ]
  transfer-Steps o to amount s = (refl, refl)

  -- A call of the administrator has happened or has changed nothing.
  pub admin-keeps :
      (Kept : Swap Bank → Type 0) (o : Origin) (m : DispatchResult (Swap Bank)) (s : Swap Bank)
      → Kept s
      → Kept (m s).1
      → Kept ((Pallet.ensure_admin config currency o >> m) s).1
  unfolding Pallet.ensure_admin
  admin-keeps Kept Origin.root m s before after =
      elim (Bool-cases (config.admin_origin Origin.root)) [
        | inl admin ↦ rw admin after
        | inr other ↦ rw other after
      ]
  admin-keeps Kept o m s before after = elim (Bool-cases (config.admin_origin o)) [
    | inl admin ↦ rw admin after
    | inr other ↦ rw other before
  ]

  -- With a lawful currency, every call does to the vault that the bridge's account is exactly what
  -- `action` says for the call and its result: a transfer of native tokens that succeeds locks and
  -- announces its amount, a payment that succeeds releases its amount, which the vault holds, unless it is
  -- to the account itself, and every other call, and every call that fails, leaves the vault as it is; as
  -- long as nobody signs for the account, amounts are of 128 bits, and the fee neither goes to the account
  -- nor is made to. What is left in the account below the existential deposit may be lost.
  pub run-Steps :
      (o : Origin) (c : Call) (s : Swap Bank)
      → Fair config currency o c
      → IsApart config currency s
      → let r = run config currency o c s in
        Steps config currency lawful s (action config currency c r.0) r
  unfolding run Pallet.set_swap_fee Pallet.set_fee_destination Pallet.transfer_native
  run-Steps (Origin.signed who) (transfer_native amount recipient dest_id) s (other, small) apart =
      transfer_native-Steps config currency lawful who amount recipient dest_id s
        (λ e. other (ap Origin.signed e)) apart small
  run-Steps o (transfer_native amount recipient dest_id) s fair apart = (refl, refl)
  run-Steps o (transfer to amount) s fair apart = transfer-Steps o to amount s
  run-Steps o (set_swap_fee fee) s fair apart =
      admin-keeps (λ t. Steps config currency lawful s idle (ok tt, t)) o
        (modify (λ t. record t { swap_fee = fee }) >> Pallet.deposit_event (Pallet.fee_changed fee))
        s (refl, refl) (refl, refl)
  run-Steps o (set_fee_destination dest) s fair apart =
      admin-keeps (λ t. Steps config currency lawful s idle (ok tt, t)) o
        (modify (λ t. record t { fee_destination = some dest })
          >> Pallet.deposit_event (Pallet.fee_destination_changed dest))
        s (refl, refl) (refl, refl)
