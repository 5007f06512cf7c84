-- ===== src/Swap/Backing.antt =====
-- What the bridge's account pays in swap/src/lib.rs was locked in it.
use xxchain.Common.{
  ℕ, ◌+◌, ◌*◌, ◌≤◌, ◌≡◌, Option, none, some, List, [], ◌∷◌, ◌++◌, length, length-append, arith, inl,
  inr, Bool-cases, ◌==◌, nat_eq,
}
use xxchain.Frame.{Origin, ◌>>◌, modify, bind-keeps}
use xxchain.Frame.Currency.{Currency, IsLawful}
use xxchain.Chainbridge.Voting.{ensure_bridge}
use xxchain.Swap.Pallet
use xxchain.Swap.Pallet.{Config, Swap, on_bank, on_bridge, pay_fee}
use xxchain.Swap.Authority.{Call, transfer_native, transfer, set_swap_fee, set_fee_destination, run}
use xxchain.Swap.Vault.{
  Vault, Action, Step, idle, lock, release, amounts_of, action, vault, released, sum, Fair, IsApart,
  History, begin, called, elsewhere,
}
use xxchain.Swap.Parts.{announce, pay, move, charge_fee}
use xxchain.Swap.Parts
use xxchain.Swap.Steps.{run-Steps, admin-keeps}

-- What a step does to the accounts.
Step-adds :
    (deposit : ℕ) (v w : Vault) (act : Action)
    → Step deposit v act w
    → let amounts = amounts_of act in
      (w.held + sum amounts + v.sent ≤ v.held + w.sent)
      × (v.held + w.sent ≤ w.held + sum amounts + v.sent + length amounts * deposit)
Step-adds deposit v w idle (held, sent) = (omega (arith, held, sent), omega (arith, held, sent))
Step-adds deposit v w (lock amount) (held, sent) =
    (omega (arith, held, sent), omega (arith, held, sent))
Step-adds deposit v w (release amount) (covered, inl left, sent) =
    (omega (arith, covered, left, sent), omega (arith, covered, left, sent))
Step-adds deposit v w (release amount) (covered, inr (reaped, dust), sent) =
    (omega (arith, covered, reaped, sent), omega (arith, covered, reaped, dust, sent))

sum-append : (xs ys : List ℕ) → sum (xs ++ ys) ≡ sum xs + sum ys
sum-append [] ys = omega arith
sum-append (x ∷ xs) ys = let h = sum-append xs ys in omega (arith, h)

module _ (config : Config) {Bank : Type 0} (currency : Currency Bank)
    (lawful : IsLawful currency) where
  pay_fee-IsApart :
      (source fee : ℕ) (dest : Option ℕ) (s : Swap Bank)
      → IsApart config currency s
      → IsApart config currency (pay_fee config currency source fee dest s).1
  pay_fee-IsApart source fee none s h = h
  pay_fee-IsApart source fee (some d) s h = h

  run-IsApart :
      (o : Origin) (c : Call) (s : Swap Bank)
      → Fair config currency o c
      → IsApart config currency s
      → IsApart config currency (run config currency o c s).1
  unfolding run Pallet.set_swap_fee Pallet.set_fee_destination Pallet.transfer_native
      Pallet.transfer ensure_bridge
  run-IsApart (Origin.signed who) (transfer_native amount recipient dest_id) s fair apart =
      let kept = IsApart config currency in
      elim (Parts.transfer_native-cases config currency who amount recipient dest_id s) [
        | inl (e, refused) ↦ rw refused apart
        | inr (known, runs) ↦ rw runs (
            bind-keeps kept (charge_fee config currency who amount recipient dest_id s)
              (move config currency who amount recipient dest_id)
              (λ t. pay_fee-IsApart who s.swap_fee s.fee_destination t)
              (bind-keeps kept (pay config currency who amount recipient dest_id)
                (announce config currency who amount recipient dest_id) (λ t h. h) (λ t h. h))
              s apart)
      ]
  run-IsApart o (transfer_native amount recipient dest_id) s fair apart = apart
  run-IsApart (Origin.signed who) (transfer to amount) s fair apart =
      elim (Bool-cases (who == config.bridge.account_id)) [
        | inl itself ↦ rw itself apart
        | inr other ↦ rw other apart
      ]
  run-IsApart o (transfer to amount) s fair apart = apart
  run-IsApart o (set_swap_fee fee) s fair apart =
      admin-keeps config currency lawful (IsApart config currency) o
        (modify (λ t. record t { swap_fee = fee }) >> Pallet.deposit_event (Pallet.fee_changed fee))
        s apart apart
  run-IsApart o (set_fee_destination dest) s fair apart =
      admin-keeps config currency lawful (IsApart config currency) o
        (modify (λ t. record t { fee_destination = some dest })
          >> Pallet.deposit_event (Pallet.fee_destination_changed dest))
        s apart fair

  open currency use {existential_deposit}

  -- With a lawful currency, over any history of calls in which nobody signs for the bridge's account,
  -- amounts are of 128 bits, the fee does not go to that account, and nothing from outside of the
  -- pallet moves its coins or announces transfers: what the account holds and what it has paid to others add up to no more than
  -- what it held at the start and what has been announced to other chains since; and they fall short of
  -- that by at most the existential deposit for each payment, which may reap the account.
  pub History-IsBacked :
      {start s : Swap Bank} {amounts : List ℕ}
      → IsApart config currency start
      → History config currency start amounts s
      → let v = vault config currency start in
        let w = vault config currency s in
        IsApart config currency s
        × (w.held + sum amounts + v.sent ≤ v.held + w.sent)
        × (v.held + w.sent ≤ w.held + sum amounts + v.sent + length amounts * existential_deposit)
  History-IsBacked apart begin = (apart, omega arith, omega arith)
  History-IsBacked apart (called {s = s} {amounts = amounts} o c fair h) =
      let (kept, above, below) = History-IsBacked apart h in
      let (step_above, step_below) =
        Step-adds existential_deposit (vault config currency s)
          (vault config currency (run config currency o c s).1)
          (action config currency c (run config currency o c s).0)
          (run-Steps config currency lawful o c s fair kept) in
      let gone = released config currency o c s in
      let split : (length gone + length amounts) * existential_deposit
          ≡ length gone * existential_deposit + length amounts * existential_deposit =
        grind arith in
      (
        run-IsApart o c s fair kept,
        rw (sum-append gone amounts) (omega (arith, above, step_above)),
        rw (sum-append gone amounts, length-append gone amounts)
            (omega (arith, below, step_below, split)),
      )
  History-IsBacked apart (elsewhere t same h) =
      let (kept, above, below) = History-IsBacked apart h in
      (
        rw same.same_destination kept,
        rw (same.same_held, same.same_sent) above,
        rw (same.same_held, same.same_sent) below,
      )
