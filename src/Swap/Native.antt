-- ===== src/Swap/Native.antt =====
-- `transfer_native` of swap/src/lib.rs keeps its promise.
use xxchain.Common.{
  ℕ, ◌+◌, ◌-◌, ◌<◌, ◌≡◌, ◌≢◌, refl, sym, ◌∙◌, ap, Option, none, some, List, arith, inl, inr,
  Option-cases, min, u128_mod, nat_eq,
}
use mathlib.Core.Path.{subst}
use xxchain.Frame.{Result, ok, Origin, ◌>>◌, bind-inversion}
use xxchain.Frame.StorageMap.{get}
use xxchain.Frame.Currency.{Currency, IsLawful}
use xxchain.Chainbridge.Storage.{Bridge}
use xxchain.Chainbridge.Effects.Transfers.{transfer_fungible-Sends}
use xxchain.Swap.Pallet.{Config, Swap, on_bank, pay_fee, transfer_native}
use xxchain.Swap.Parts
use xxchain.Swap.Moved.{OtherThan, Announces, Credited, FeePaid, Moved}

module _ {Bank : Type 0} (currency : Currency Bank) (lawful : IsLawful currency) where
  open currency use {free_balance, existential_deposit}

  pay_fee-FeePaid :
      (config : Config) (source fee : ℕ) (dest : Option ℕ) (s : Swap Bank)
      → OtherThan source dest
      → (pay_fee config currency source fee dest s).0 ≡ ok tt
      → FeePaid currency source fee dest s.bank (pay_fee config currency source fee dest s).1.bank
  pay_fee-FeePaid config source fee none s other h = record {
    covered = omega arith;
    left = inl (omega arith);
    credited = tt;
    others = λ x _ _. refl;
  }
  pay_fee-FeePaid config source fee (some d) s other h =
      let ne : source ≢ d = λ e. other (sym e) in
      record {
        covered = lawful.transfer_covered source d fee s.bank ne h;
        left = lawful.transfer_debits source d fee s.bank ne h;
        credited = lawful.transfer_credits source d fee s.bank ne h;
        others = λ x nx od. lawful.transfer_others source d fee x s.bank nx (λ e. od (sym e));
      }

  pay_fee-bridge :
      (config : Config) (source fee : ℕ) (dest : Option ℕ) (s : Swap Bank)
      → (pay_fee config currency source fee dest s).1.bridge ≡ s.bridge
  pay_fee-bridge config source fee none s = refl
  pay_fee-bridge config source fee (some d) s = refl

  module _ (config : Config) (source amount : ℕ) (recipient : List ℕ) (dest_id : ℕ)
      (s : Swap Bank) where
    abbrev announce : Swap Bank → Result (Unit {0}) × Swap Bank
    announce = Parts.announce config currency source amount recipient dest_id

    abbrev move : Swap Bank → Result (Unit {0}) × Swap Bank
    move = Parts.move config currency source amount recipient dest_id

    abbrev charged : Swap Bank → Result (Unit {0}) × Swap Bank
    charged = Parts.charge_fee config currency source amount recipient dest_id s

    past_guards :
        (transfer_native config currency (Origin.signed source) amount recipient dest_id s).0
          ≡ ok tt
        → transfer_native config currency (Origin.signed source) amount recipient dest_id s
          ≡ (charged >> move) s
    past_guards h =
        elim (Parts.transfer_native-cases config currency source amount recipient dest_id s) [
          | inl (e, refused) ↦ absurd (cc (rw refused at h))
          | inr (known, runs) ↦ runs
        ]

    announce-Announces :
        (m : Swap Bank)
        → (announce m).0 ≡ ok tt
        → amount < u128_mod
        → Announces config recipient dest_id amount m.bridge (announce m).1.bridge
    announce-Announces m h small =
        let sent = min amount (u128_mod - 1) in
        let whole : sent ≡ amount = omega arith in
        let sends =
          transfer_fungible-Sends m.bridge dest_id config.native_token_id recipient sent in
        elim (Option-cases (get m.bridge.chain_nonces dest_id)) [
          | inl absent ↦
              absurd (cc (ap (λ (x : Result (Unit {0}) × Bridge). x.0) (sends.0 absent), h))
          | inr (n, known) ↦
              subst (λ (a : ℕ). Announces config recipient dest_id a m.bridge (announce m).1.bridge)
                whole (n, known, ap (λ (x : Result (Unit {0}) × Bridge). x.1) (sends.1 n known))
        ]

    -- The state in which the amount is announced, after the fee has left `m`.
    abbrev paid_out : Swap Bank → Swap Bank
    paid_out m = (on_bank (currency.transfer source config.bridge.account_id amount) m).1

    credit_kept :
        (fee : ℕ) (dest : Option ℕ) (m : Swap Bank)
        → OtherThan source dest
        → OtherThan config.bridge.account_id dest
        → Credited currency fee dest s.bank m.bank
        → Credited currency fee dest s.bank (paid_out m).bank
    credit_kept fee none m ns nb h = tt
    credit_kept fee (some d) m ns nb h =
        lawful.transfer_others source config.bridge.account_id amount d m.bank ns nb ∙ h

    steps-Moved :
        (m : Swap Bank)
        → source ≢ config.bridge.account_id
        → OtherThan source s.fee_destination
        → OtherThan config.bridge.account_id s.fee_destination
        → amount < u128_mod
        → m.bridge ≡ s.bridge
        → FeePaid currency source s.swap_fee s.fee_destination s.bank m.bank
        → (currency.transfer source config.bridge.account_id amount m.bank).0 ≡ ok tt
        → (announce (paid_out m)).0 ≡ ok tt
        → Moved currency config source amount recipient dest_id s (announce (paid_out m)).1
    steps-Moved m ne fee_source fee_bridge small same fee moved_ok announced_ok =
        let bridge_id = config.bridge.account_id in
        let covered = lawful.transfer_covered source bridge_id amount m.bank ne moved_ok in
        let debits = lawful.transfer_debits source bridge_id amount m.bank ne moved_ok in
        let credits = lawful.transfer_credits source bridge_id amount m.bank ne moved_ok in
        let rest = fee.left in
        record {
          paid = ground (arith, fee.covered);
          left = ground arith;
          received =
              credits
              ∙ ap (λ (a : ℕ). a + amount) (fee.others bridge_id (λ e. ne (sym e)) fee_bridge);
          credited = credit_kept s.swap_fee s.fee_destination m fee_source fee_bridge fee.credited;
          others = λ x ns nb nf.
              lawful.transfer_others source bridge_id amount x m.bank ns nb ∙ fee.others x ns nf;
          announced =
              subst
                (λ (b : Bridge).
                  Announces config recipient dest_id amount b (announce (paid_out m)).1.bridge)
                same (announce-Announces (paid_out m) announced_ok small);
        }

    -- For two accounts and a fee destination that are different, and an amount of 128 bits, a
    -- successful transfer of native tokens has moved the amount and the fee and has announced the
    -- amount, as `Moved` says.
    pub transfer_native-Moved :
        source ≢ config.bridge.account_id
        → OtherThan source s.fee_destination
        → OtherThan config.bridge.account_id s.fee_destination
        → amount < u128_mod
        → (transfer_native config currency (Origin.signed source) amount recipient dest_id s).0
          ≡ ok tt
        → Moved currency config source amount recipient dest_id s
            (transfer_native config currency (Origin.signed source) amount recipient dest_id s).1
    transfer_native-Moved ne fee_source fee_bridge small h =
        let bridge_id = config.bridge.account_id in
        let guards = past_guards h in
        let h' : ((charged >> move) s).0 ≡ ok tt = rw guards at h in
        let (u, fee_ok, after_fee) = bind-inversion charged (λ _. move) s h' in
        let m = (charged s).1 in
        let h2 : (move m).0 ≡ ok tt = rw after_fee at h' in
        let (u', moved_ok, after_move) =
          bind-inversion (on_bank (currency.transfer source bridge_id amount)) (λ _. announce) m
            h2 in
        let fee = pay_fee-FeePaid config source s.swap_fee s.fee_destination s fee_source fee_ok in
        rw (guards ∙ after_fee ∙ after_move) (
          steps-Moved m ne fee_source fee_bridge small
            (pay_fee-bridge config source s.swap_fee s.fee_destination s) fee moved_ok
            (rw after_move at h2))
