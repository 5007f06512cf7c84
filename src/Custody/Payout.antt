-- ===== src/Custody/Payout.antt =====
-- Payouts of xx-team-custody/src/custody.rs.
use xxchain.Common.{
  ℕ, ◌+◌, ◌-◌, ◌/◌, Bool, true, false, ◌&&◌, not, none, some, min, ltb, ◌==◌, nat_eq, u128_mod,
  wrapping_add, wrapping_sub, wrapping_mul, if◌then◌else◌,
}
use xxchain.Frame.{
  ok, err, xx_custody, payout_not_available, payout_failed_insufficient_funds, panicked,
  DispatchResult, pure, ensure, modify, ◌>>◌,
}
use xxchain.Frame.StorageMap.{get, insert, remove}
use xxchain.Frame.Perbill.{Perbill}
use xxchain.Custody.Pallet.{
  CustodyInfo, Event, payout_from_custody, payout_from_reserve, custody_done, Config, Externals,
  Custody, on_world, deposit_event,
}

-- What is withdrawn from the custody and from the reserve account.
abbrev pub withdrawals : Bool → ℕ → ℕ → ℕ → ℕ × ℕ
withdrawals true amount custody_balance reserve_balance =
    (min amount custody_balance, min (amount - min amount custody_balance) reserve_balance)
withdrawals false amount custody_balance reserve_balance = (custody_balance, reserve_balance)

-- `increase_vested`
abbrev pub increase_vested : CustodyInfo → ℕ → CustodyInfo
increase_vested info amount = record info { vested = wrapping_add u128_mod info.vested amount }

-- What leaves the total custody, for the info after the payout.
abbrev pub custody_deduct : Bool → ℕ → CustodyInfo → ℕ
custody_deduct true withdraw info = withdraw
custody_deduct false withdraw info =
    if ltb info.allocation info.vested
    then withdraw - wrapping_sub u128_mod info.vested info.allocation
    else if ltb info.vested info.allocation
    then min (withdraw + wrapping_sub u128_mod info.allocation info.vested) (u128_mod - 1)
    else withdraw

module _ {W : Type 0} where
  -- The storage of the info, or its deletion at the end.
  abbrev pub store_info : Bool → ℕ → CustodyInfo → Custody W → Custody W
  store_info true who info s = record s { team_accounts = insert s.team_accounts who info }
  store_info false who info s = record s {
    team_accounts = remove s.team_accounts who;
    custody_accounts = remove s.custody_accounts info.custody;
  }

module _ (config : Config) (perbill : Perbill) {W : Type 0} (externals : Externals W) where
  abbrev pub is_custody_done : ℕ → Bool
  is_custody_done block = ltb config.custody_duration block

  abbrev pub is_governance_custody_done : ℕ → Bool
  is_governance_custody_done block = ltb config.governance_custody_duration block

  unfoldable pub remove_custody_proxies : ℕ → DispatchResult (Custody W)
  remove_custody_proxies custody s =
      let (old_deposit, w) = externals.take_proxies custody s.world in
      (ok tt, record s { world = externals.unreserve custody old_deposit w })

  unfoldable pub compute_payout : ℕ → ℕ
  compute_payout allocation =
      perbill.times (perbill.from_rational config.payout_frequency config.custody_duration)
        allocation

  -- Steps 4 and 5: a transfer and its event, if there is something to transfer.
  abbrev pub pay : ℕ → ℕ → ℕ → Event → DispatchResult (Custody W)
  pay source who amount event =
      if amount == 0
      then pure tt
      else (on_world (externals.transfer source who amount) >> deposit_event event)

  abbrev pub transferable : Custody W → ℕ → Bool → ℕ
  transferable s who keep_alive =
      min (externals.reducible_balance s.world who keep_alive) (u128_mod - 1)

  unfoldable pub do_payout : ℕ → ℕ → CustodyInfo → Bool → DispatchResult (Custody W)
  do_payout who amount info keep_alive s =
      let custody_balance = transferable s info.custody keep_alive in
      let reserve_balance = transferable s info.reserve keep_alive in
      let from_custody = (withdrawals keep_alive amount custody_balance reserve_balance).0 in
      let from_reserve = (withdrawals keep_alive amount custody_balance reserve_balance).1 in
      let withdraw = wrapping_add u128_mod from_custody from_reserve in
      let info' = increase_vested info withdraw in
      (do
        pay info.custody who from_custody (payout_from_custody who from_custody)
        pay info.reserve who from_reserve (payout_from_reserve who from_reserve)
        ensure (not (keep_alive && withdraw == 0)) (xx_custody payout_failed_insufficient_funds)
        modify (λ s. record s {
          total_custody = s.total_custody - custody_deduct keep_alive withdraw info';
        })
        modify (store_info keep_alive who info'))
        s

  -- 3.1: the leftover bond is unstaked by force.
  abbrev pub unstake_leftover : ℕ → DispatchResult (Custody W)
  unstake_leftover custody s =
      if externals.is_bonded s.world custody
      then on_world (externals.force_unstake custody) s
      else (ok tt, s)

  -- Step 4: the amount that is due at a block.
  abbrev pub amount_due : CustodyInfo → ℕ → ℕ
  amount_due info block =
      wrapping_sub u128_mod
        (wrapping_mul u128_mod (compute_payout info.allocation) (block / config.payout_frequency))
        info.vested

  -- `try_payout` once the info is read.
  unfoldable pub payout_info : ℕ → CustodyInfo → DispatchResult (Custody W)
  payout_info who info s =
      if is_custody_done s.block_number
      then ((do
        unstake_leftover info.custody
        remove_custody_proxies info.custody
        do_payout who 0 info false
        deposit_event (custody_done who))
          s)
      else if amount_due info s.block_number == 0
      then (err (xx_custody payout_not_available), s)
      else do_payout who (amount_due info s.block_number) info true s

  -- `unwrap` panics where there is no info.
  unfoldable pub try_payout : ℕ → DispatchResult (Custody W)
  try_payout who s = elim (get s.team_accounts who) [
    | none ↦ (err panicked, s)
    | some info ↦ payout_info who info s
  ]
