-- ===== src/Custody/Outside.antt =====
-- What a payout of xx-team-custody/src/custody.rs before the end of the custody leaves alone.
use xxchain.Common.{ℕ, ◌≡◌, ◌≢◌, refl, ◌∙◌, true, false, some, inl, inr, Bool-cases, ◌==◌, nat_eq}
use xxchain.Frame.{Origin, ok, bind-keeps, ◌>>◌}
use xxchain.Frame.Currency.{Currency}
use xxchain.Frame.StorageMap.{get}
use xxchain.Frame.Perbill.{Perbill}
use xxchain.Custody.Pallet.{
  payout_from_custody, payout_from_reserve, CustodyInfo, Event, Config, Externals, Custody,
  on_world, deposit_event,
}
use xxchain.Custody.Payout.{
  withdrawals, transferable, is_custody_done, pay, do_payout, amount_due, payout_info, try_payout,
}
use xxchain.Custody.Calls.{payout, is_team_member}
use xxchain.Custody.Balance.{withdrawn, conclude}

module _ (config : Config) (perbill : Perbill) {W : Type 0} (externals : Externals W)
    (currency : Currency W) where
  -- The balance of an account in the world of the custody pallet stays `n`.
  abbrev pub Holds : ℕ → ℕ → Custody W → Type 0
  Holds x n s = currency.free_balance s.world x ≡ n

  -- Transfers between other accounts leave a balance alone.
  abbrev pub LeavesOthers : Type 0
  LeavesOthers =
      (source dest value x : ℕ) (w : W)
      → x ≢ source
      → x ≢ dest
      → currency.free_balance (externals.transfer source dest value w).1 x
        ≡ currency.free_balance w x

  pay-Holds :
      LeavesOthers
      → (source who amount : ℕ) (event : Event) (x n : ℕ) → x ≢ source
      → x ≢ who
      → (s : Custody W) → Holds x n s
      → Holds x n (pay config perbill externals source who amount event s).1
  pay-Holds leaves source who amount event x n nx nw s h = elim (Bool-cases (amount == 0)) [
    | inl nothing ↦ rw nothing h
    | inr something ↦ rw something (
        bind-keeps (Holds x n) (on_world (externals.transfer source who amount))
          (deposit_event event) (λ t k. leaves source who amount x t.world nx nw ∙ k) (λ t k. k) s
          h)
  ]

  module _ (leaves : LeavesOthers) (info : CustodyInfo) (who x : ℕ) (nc : x ≢ info.custody)
      (nr : x ≢ info.reserve) (nw : x ≢ who) where
    conclude-Holds :
        (w n : ℕ) (s : Custody W)
        → Holds x n s
        → Holds x n (conclude config perbill externals who info true w s).1
    conclude-Holds w n s h = elim (Bool-cases (w == 0)) [
      | inl nothing ↦ rw nothing h
      | inr something ↦ rw something h
    ]

    -- A payout moves balances between the member and the member's two accounts.
    pub do_payout-Holds :
        (amount n : ℕ) (s : Custody W)
        → Holds x n s
        → Holds x n (do_payout config perbill externals who amount info true s).1
    unfolding do_payout
    do_payout-Holds amount n s =
        let from =
          withdrawals true amount (transferable config perbill externals s info.custody true)
            (transferable config perbill externals s info.reserve true) in
        let pay_custody =
          pay config perbill externals info.custody who from.0 (payout_from_custody who from.0) in
        let pay_reserve =
          pay config perbill externals info.reserve who from.1 (payout_from_reserve who from.1) in
        let rest =
          conclude config perbill externals who info true
            (withdrawn config perbill externals amount info true s) in
        bind-keeps (Holds x n) pay_custody (pay_reserve >> rest)
          (pay-Holds leaves info.custody who from.0 (payout_from_custody who from.0) x n nc nw)
          (bind-keeps (Holds x n) pay_reserve rest
            (pay-Holds leaves info.reserve who from.1 (payout_from_reserve who from.1) x n nr nw)
            (conclude-Holds (withdrawn config perbill externals amount info true s) n))
          s

  -- Before the end of the custody, a payout that succeeds is one of the amount that is due.
  pub payout-during :
      (caller who : ℕ) (info : CustodyInfo) (s : Custody W)
      → get s.team_accounts who ≡ some info
      → is_custody_done config perbill externals s.block_number ≡ false
      → (payout config perbill externals (Origin.signed caller) who s).0 ≡ ok tt
      → payout config perbill externals (Origin.signed caller) who s
        ≡ do_payout config perbill externals who
            (amount_due config perbill externals info s.block_number)
            info
            true
            s
  unfolding payout try_payout payout_info
  payout-during caller who info s stored active = elim (Bool-cases (is_team_member s who)) [
    | inr stranger ↦ rw stranger (λ h. cc)
    | inl member ↦
        elim (Bool-cases (amount_due config perbill externals info s.block_number == 0)) [
          | inl nothing ↦ rw (member, try_payout, stored, active, nothing) (λ h. cc)
          | inr due ↦ rw (member, try_payout, stored, active, due) (λ h. refl)
        ]
  ]
