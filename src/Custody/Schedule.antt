-- ===== src/Custody/Schedule.antt =====
-- A payout of xx-team-custody/src/custody.rs keeps the books square and the member on schedule.
use mathlib.Core.Path.{subst}
use xxchain.Common.{
  ℕ, ◌+◌, ◌-◌, ◌*◌, ◌/◌, ◌^◌, ◌≤◌, ◌<◌, ◌≡◌, ap, ◌∙◌, true, false, some, arith, inl, inr,
  Bool-cases, ◌==◌, nat_eq,
}
use xxchain.Frame.{ok}
use xxchain.Frame.StorageMap.{get, get-insert, get-remove}
use xxchain.Frame.Perbill.{Perbill}
use xxchain.Custody.Pallet.{CustodyInfo, Config, Externals, Custody}
use xxchain.Custody.Payout.{increase_vested, compute_payout, amount_due, do_payout}
use xxchain.Custody.Balance.{withdrawn, do_payout-Books}
use xxchain.Custody.Square.{
  IsSquare, kept-IsSquare, gone-IsSquare, custody_deduct-last, withdrawn-le, withdrawn-room,
  HasRoom, IsModest, allocation-le,
}

module _ (config : Config) (perbill : Perbill) {W : Type 0} (externals : Externals W) where
  -- What may be recorded as paid to a member up to a block.
  abbrev pub scheduled : CustodyInfo → ℕ → ℕ
  scheduled info block =
      compute_payout config perbill externals info.allocation * (block / config.payout_frequency)

  -- No stored member has more recorded as paid than the schedule gives at the current block, and no schedule gives
  -- more than is allocated.
  abbrev pub IsScheduled : Custody W → Type 0
  IsScheduled s =
      (who : ℕ) (i : CustodyInfo)
      → get s.team_accounts who ≡ some i
      → (i.vested ≤ scheduled i s.block_number) × IsModest config perbill externals i.allocation

  pub amount_due-exact :
      (s : Custody W) (who : ℕ) (info : CustodyInfo)
      → IsSquare s
      → IsScheduled s
      → s.block_number ≤ config.custody_duration
      → get s.team_accounts who ≡ some info
      → info.vested + amount_due config perbill externals info s.block_number
        ≡ scheduled info s.block_number
  amount_due-exact s who info sq sched early stored = omega (
    arith,
    (sched who info stored).0,
    (sched who info stored).1 s.block_number early,
    allocation-le s who info sq stored,
    sq.fits,
  )

  -- A payout before the end of the custody.
  pub during-IsSquare :
      (s : Custody W) (who : ℕ) (info : CustodyInfo)
      → IsSquare s
      → IsScheduled s
      → s.block_number ≤ config.custody_duration
      → get s.team_accounts who ≡ some info
      → let due = amount_due config perbill externals info s.block_number in
        let paid = do_payout config perbill externals who due info true s in
        paid.0 ≡ ok tt → IsSquare paid.1 × IsScheduled paid.1
  during-IsSquare s who info sq sched early stored h =
      let modest = (sched who info stored).1 in
      let scheduled_le = modest s.block_number early in
      let due = amount_due config perbill externals info s.block_number in
      let w = withdrawn config perbill externals due info true s in
      let t = (do_payout config perbill externals who due info true s).1 in
      let books = do_payout-Books config perbill externals who due info true s h in
      let exact = amount_due-exact s who info sq sched early stored in
      let small : info.allocation < 2 ^ 127 =
        omega (arith, allocation-le s who info sq stored, sq.fits) in
      let paid : w ≤ due =
        withdrawn-le config perbill externals due info s (omega (arith, exact, scheduled_le)) in
      let vested' : (increase_vested info w).vested ≡ info.vested + w =
        omega (arith, exact, paid, scheduled_le) in
      (
        kept-IsSquare s t who info w sq stored (omega (arith, exact, paid, scheduled_le))
            books.accounts books.held,
        λ k i.
            rw (books.accounts, books.time, get-insert)
              (elim (Bool-cases (who == k)) [
                | inl hit ↦ rw hit (λ e.
                    let same : increase_vested info w ≡ i = cc in
                    subst
                      (λ (x : CustodyInfo).
                        (x.vested ≤ scheduled x s.block_number)
                        × IsModest config perbill externals x.allocation)
                      same (omega (arith, vested', exact, paid), modest))
                | inr miss ↦ rw miss (sched k i)
              ]),
      )

  -- The last payout.
  pub last-IsSquare :
      (s : Custody W) (who : ℕ) (info : CustodyInfo)
      → IsSquare s
      → IsScheduled s
      → HasRoom config perbill externals
      → get s.team_accounts who ≡ some info
      → let paid = do_payout config perbill externals who 0 info false s in
        paid.0 ≡ ok tt → IsSquare paid.1 × IsScheduled paid.1
  last-IsSquare s who info sq sched room stored h =
      let w = withdrawn config perbill externals 0 info false s in
      let t = (do_payout config perbill externals who 0 info false s).1 in
      let books = do_payout-Books config perbill externals who 0 info false s h in
      let small : info.allocation < 2 ^ 127 =
        omega (arith, allocation-le s who info sq stored, sq.fits) in
      let deducted =
        custody_deduct-last w info (sq.within who info stored) small
          (withdrawn-room config perbill externals 0 info s room) in
      (
        gone-IsSquare s t who info sq stored books.accounts
            (books.held ∙ ap (λ (n : ℕ). s.total_custody - n) deducted),
        λ k i. rw (books.accounts, books.time, get-remove) (ground (arith, sched k i)),
      )
