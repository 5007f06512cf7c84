-- ===== src/Swap/Locking.antt =====
-- `transfer_native` of swap/src/lib.rs as a step of the vault.
use xxchain.Common.{
  ℕ, ◌+◌, ◌-◌, ◌<◌, ◌≡◌, ◌≢◌, refl, sym, ◌∙◌, ap, true, Option, none, some, List, arith, inl, inr,
  Option-cases, min, u128_mod, nat_eq,
}
use mathlib.Core.Path.{subst}
use xxchain.Frame.{Result, ok, Origin, DispatchResult, ◌>>◌, bind-ok, bind-err, Result-cases}
use xxchain.Frame.StorageMap.{get}
use xxchain.Frame.Currency.{Currency, IsLawful}
use xxchain.Chainbridge.Storage.{Bridge, is_whitelisted}
use xxchain.Chainbridge.Effects.Transfers.{transfer_fungible-Sends}
use xxchain.Swap.Pallet
use xxchain.Swap.Pallet.{Config, Swap, on_bank, on_bridge, pay_fee}
use xxchain.Swap.Moved.{OtherThan}
use xxchain.Swap.Parts
use xxchain.Swap.Authority.{transfer_native}
use xxchain.Swap.Vault.{Vault, Action, Step, action, all_sent, vault, IsApart}

module _ (config : Config) {Bank : Type 0} (currency : Currency Bank)
    (lawful : IsLawful currency) where
  open currency use {free_balance, existential_deposit}

  abbrev pub account : ℕ
  account = config.bridge.account_id

  -- The step of a state to the state of a run.
  abbrev pub Steps : Swap Bank → Action → Result (Unit {0}) × Swap Bank → Type 0
  Steps s act r = Step existential_deposit (vault config currency s) act (vault config currency r.1)

  module _ (source amount : ℕ) (recipient : List ℕ) (dest_id : ℕ) where
    abbrev announce : DispatchResult (Swap Bank)
    announce = Parts.announce config currency source amount recipient dest_id

    abbrev pay : DispatchResult (Swap Bank)
    pay = Parts.pay config currency source amount recipient dest_id

    abbrev move : DispatchResult (Swap Bank)
    move = Parts.move config currency source amount recipient dest_id

    abbrev of_result : Result (Unit {0}) → Action
    of_result = action config currency (transfer_native amount recipient dest_id)

    -- The step that goes with the result of the call.
    abbrev Locks : Swap Bank → Result (Unit {0}) × Swap Bank → Type 0
    Locks s r = Steps s (of_result r.0) r

    announce-sent :
        (s : Swap Bank)
        → is_whitelisted s.bridge dest_id ≡ true
        → amount < u128_mod
        → ((announce s).0 ≡ ok tt)
          × ((announce s).1.bank ≡ s.bank)
          × (all_sent (announce s).1.bridge.events ≡ all_sent s.bridge.events + amount)
    unfolding is_whitelisted
    announce-sent s known small =
        let sent = min amount (u128_mod - 1) in
        let whole : sent ≡ amount = omega arith in
        let sends =
          transfer_fungible-Sends s.bridge dest_id config.native_token_id recipient sent in
        elim (Option-cases (get s.bridge.chain_nonces dest_id)) [
          | inl absent ↦ absurd (cc (rw (absent, is_whitelisted) at known))
          | inr (n, present) ↦ (
            ap (λ (x : Result (Unit {0}) × Bridge). x.0) (sends.1 n present),
            refl,
            ap (λ (x : Result (Unit {0}) × Bridge). all_sent x.1.events) (sends.1 n present)
                ∙ omega (arith, whole),
          )
        ]

    move-Steps :
        (s : Swap Bank)
        → source ≢ account
        → is_whitelisted s.bridge dest_id ≡ true
        → amount < u128_mod
        → Locks s (move s)
    move-Steps s ne known small =
        elim (Result-cases (currency.transfer source account amount s.bank).0) [
          | inl (u, done) ↦
              let m = (pay s).1 in
              let (announced, kept, sent) = announce-sent m known small in
              subst (λ (r : Result (Unit {0}) × Swap Bank). Locks s r)
                (sym (bind-ok pay (λ _. announce) (ap (λ (r : Result (Unit {0})). (r, m)) done)))
                (subst
                  (λ (r : Result (Unit {0})).
                    Step existential_deposit (vault config currency s) (of_result r)
                      (vault config currency (announce m).1))
                  (sym announced)
                  (
                    ap (λ (b : Bank). free_balance b account) kept
                        ∙ lawful.transfer_credits source account amount s.bank ne done,
                    sent,
                  ))
          | inr (e, failed) ↦
              let m = (pay s).1 in
              subst (λ (r : Result (Unit {0}) × Swap Bank). Locks s r)
                (sym (bind-err pay (λ _. announce) (ap (λ (r : Result (Unit {0})). (r, m)) failed)))
                (
                  ap (λ (b : Bank). free_balance b account)
                      (lawful.transfer_refused source account amount s.bank e failed),
                  refl,
                )
        ]

    charged-keeps :
        (fee : ℕ) (dest : Option ℕ) (s : Swap Bank)
        → source ≢ account
        → OtherThan account dest
        → let t = (pay_fee config currency source fee dest s).1 in
          (t.bridge ≡ s.bridge) × (free_balance t.bank account ≡ free_balance s.bank account)
    charged-keeps fee none s ne apart = (refl, refl)
    charged-keeps fee (some d) s ne apart = (
      refl,
      lawful.transfer_others source d fee account s.bank (λ e. ne (sym e)) (λ e. apart (sym e)),
    )

    charged-Steps :
        (s : Swap Bank)
        → source ≢ account
        → IsApart config currency s
        → is_whitelisted s.bridge dest_id ≡ true
        → amount < u128_mod
        → Locks s ((Parts.charge_fee config currency source amount recipient dest_id s >> move) s)
    charged-Steps s ne apart known small =
        let fee = Parts.charge_fee config currency source amount recipient dest_id s in
        let m = (fee s).1 in
        let (same_bridge, same_held) = charged-keeps s.swap_fee s.fee_destination s ne apart in
        let known' : is_whitelisted m.bridge dest_id ≡ true =
          ap (λ (b : Bridge). is_whitelisted b dest_id) same_bridge ∙ known in
        let same_vault : vault config currency m ≡ vault config currency s =
          λ i. record { held = same_held i; sent = all_sent (same_bridge i).events } in
        elim (Result-cases (fee s).0) [
          | inl (u, done) ↦
              subst (λ (r : Result (Unit {0}) × Swap Bank). Locks s r)
                (sym (bind-ok fee (λ _. move) (ap (λ (r : Result (Unit {0})). (r, m)) done)))
                (subst
                  (λ (v : Vault).
                    Step existential_deposit v (of_result (move m).0)
                      (vault config currency (move m).1))
                  same_vault (move-Steps m ne known' small))
          | inr (e, failed) ↦
              subst (λ (r : Result (Unit {0}) × Swap Bank). Locks s r)
                (sym (bind-err fee (λ _. move) (ap (λ (r : Result (Unit {0})). (r, m)) failed)))
                (same_held, ap (λ (b : Bridge). all_sent b.events) same_bridge)
        ]

    pub transfer_native-Steps :
        (s : Swap Bank)
        → source ≢ account
        → IsApart config currency s
        → amount < u128_mod
        → Locks s (
            Pallet.transfer_native config currency
              (Origin.signed source)
              amount
              recipient
              dest_id
              s)
    transfer_native-Steps s ne apart small =
        elim (Parts.transfer_native-cases config currency source amount recipient dest_id s) [
          | inl (e, refused) ↦ rw refused (refl, refl)
          | inr (known, runs) ↦ rw runs (charged-Steps s ne apart known small)
        ]
