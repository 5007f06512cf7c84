-- ===== src/Custody/Keeps.antt =====
-- `payout` of xx-team-custody keeps the books square, during the custody and at its end.
use xxchain.Common.{
  ℕ, ◌≡◌, refl, ap, ◌∙◌, false, some, arith, inl, inr, Bool-cases, Option-cases, ◌==◌, nat_eq,
}
use xxchain.Frame.{ok, DispatchResult, bind-inversion, ◌>>◌, Origin}
use xxchain.Frame.StorageMap.{StorageMap, get}
use xxchain.Frame.Perbill.{Perbill}
use xxchain.Custody.Pallet.{CustodyInfo, Config, Externals, Custody, deposit_event, custody_done}
use xxchain.Custody.Payout.{
  amount_due, do_payout, is_custody_done, unstake_leftover, remove_custody_proxies, payout_info,
  try_payout,
}
use xxchain.Custody.Calls.{payout, is_team_member}
use xxchain.Custody.Balance.{SameBooks, SameBooks-trans}
use xxchain.Custody.Square.{IsSquare, HasRoom}
use xxchain.Custody.Schedule.{IsScheduled, during-IsSquare, last-IsSquare}

module _ (config : Config) (perbill : Perbill) {W : Type 0} (externals : Externals W) where
  -- Square books, and every member on schedule.
  abbrev pub InOrder : Custody W → Type 0
  InOrder s = IsSquare s × IsScheduled config perbill externals s

  pub same-InOrder : (s t : Custody W) → SameBooks s t → InOrder s → InOrder t
  same-InOrder s t same (sq, sched) = (
    record {
      proper = rw same.accounts sq.proper;
      square = rw (same.accounts, same.held) sq.square;
      fits = rw same.accounts sq.fits;
      within = λ k i. rw same.accounts (sq.within k i);
    },
    λ k i. rw (same.accounts, same.time) (sched k i),
  )

  unstake-SameBooks :
      (custody : ℕ) (s : Custody W)
      → SameBooks s (unstake_leftover config perbill externals custody s).1
  unstake-SameBooks custody s = elim (Bool-cases (externals.is_bonded s.world custody)) [
    | inl bonded ↦ rw bonded (record { accounts = refl; held = refl; time = refl })
    | inr unbonded ↦ rw unbonded (record { accounts = refl; held = refl; time = refl })
  ]

  proxies-SameBooks :
      (custody : ℕ) (s : Custody W)
      → SameBooks s (remove_custody_proxies config perbill externals custody s).1
  unfolding remove_custody_proxies
  proxies-SameBooks custody s = record { accounts = refl; held = refl; time = refl }

  -- The end of the custody: unstake, remove the proxies, pay the rest, report it.
  abbrev finish : ℕ → CustodyInfo → DispatchResult (Custody W)
  finish who info =
      do_payout config perbill externals who 0 info false >> deposit_event (custody_done who)

  finish-InOrder :
      (who : ℕ) (info : CustodyInfo) (s : Custody W)
      → HasRoom config perbill externals
      → InOrder s
      → get s.team_accounts who ≡ some info
      → (finish who info s).0 ≡ ok tt
      → InOrder (finish who info s).1
  finish-InOrder who info s room (sq, sched) stored h =
      let pay = do_payout config perbill externals who 0 info false in
      let report : DispatchResult (Custody W) = deposit_event (custody_done who) in
      let (u, paid, next) = bind-inversion pay (λ _. report) s h in
      let order = last-IsSquare config perbill externals s who info sq sched room stored paid in
      rw next (
        same-InOrder (pay s).1 (report (pay s).1).1
          (record { accounts = refl; held = refl; time = refl }) order)

  ended-InOrder :
      (who : ℕ) (info : CustodyInfo) (s : Custody W)
      → HasRoom config perbill externals
      → InOrder s
      → get s.team_accounts who ≡ some info
      → let m =
          unstake_leftover config perbill externals info.custody
          >> (remove_custody_proxies config perbill externals info.custody >> finish who info) in
        (m s).0 ≡ ok tt → InOrder (m s).1
  ended-InOrder who info s room order stored h =
      let unstake = unstake_leftover config perbill externals info.custody in
      let proxies = remove_custody_proxies config perbill externals info.custody in
      let (u, ok1, next1) = bind-inversion unstake (λ _. proxies >> finish who info) s h in
      let s1 = (unstake s).1 in
      let h1 : ((proxies >> finish who info) s1).0 ≡ ok tt = rw next1 at h in
      let (u2, ok2, next2) = bind-inversion proxies (λ _. finish who info) s1 h1 in
      let s2 = (proxies s1).1 in
      let h2 : (finish who info s2).0 ≡ ok tt = rw next2 at h1 in
      let same =
        SameBooks-trans s s1 s2 (unstake-SameBooks info.custody s)
          (proxies-SameBooks info.custody s1) in
      let stored2 : get s2.team_accounts who ≡ some info =
        ap (λ (m : StorageMap ℕ CustodyInfo). get m who) same.accounts ∙ stored in
      rw (next1 ∙ next2) (finish-InOrder who info s2 room (same-InOrder s s2 same order) stored2 h2)

  payout_info-InOrder :
      (who : ℕ) (info : CustodyInfo) (s : Custody W)
      → HasRoom config perbill externals
      → InOrder s
      → get s.team_accounts who ≡ some info
      → (payout_info config perbill externals who info s).0 ≡ ok tt
      → InOrder (payout_info config perbill externals who info s).1
  unfolding payout_info
  payout_info-InOrder who info s room order stored =
      elim (Bool-cases (is_custody_done config perbill externals s.block_number)) [
        | inl done ↦ rw done (ended-InOrder who info s room order stored)
        | inr active ↦
            elim (Bool-cases (amount_due config perbill externals info s.block_number == 0)) [
              | inl nothing ↦ rw (active, nothing) (λ h. cc)
              | inr due ↦
                  rw (active, due)
                    (during-IsSquare config perbill externals s who info order.0 order.1
                      (ground arith) stored)
            ]
      ]

  -- A payout that succeeds keeps the books in order: what is under custody and what members have
  -- been recorded as paid still add up to what is allocated, for the members that stay stored, no record
  -- is above the allocation or above what the schedule gives at the block, and at the end of the custody
  -- exactly what was left of the member's allocation leaves the total, whatever the accounts hold; as
  -- long as withdrawals stay far below the bound of the balance type.
  pub payout-InOrder :
      (origin : Origin) (who : ℕ) (s : Custody W)
      → HasRoom config perbill externals
      → InOrder s
      → (payout config perbill externals origin who s).0 ≡ ok tt
      → InOrder (payout config perbill externals origin who s).1
  unfolding payout try_payout
  payout-InOrder (Origin.signed _) who s room order = elim (Bool-cases (is_team_member s who)) [
    | inr stranger ↦ rw stranger (λ h. cc)
    | inl member ↦ elim (Option-cases (get s.team_accounts who)) [
      | inl missing ↦ rw (member, try_payout, missing) (λ h. cc)
      | inr (info, stored) ↦
          rw (member, try_payout, stored) (payout_info-InOrder who info s room order stored)
    ]
  ]
  payout-InOrder o who s room order = λ h. cc
