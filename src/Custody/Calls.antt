-- ===== src/Custody/Calls.antt =====
-- The calls and the genesis build of xx-team-custody/src/lib.rs, with their parts in custody.rs.
use xxchain.Common.{
  ℕ, Bool, true, false, not, none, some, List, [], ◌∷◌, nat_eq, u128_mod, wrapping_add,
  wrapping_sub,
}
use xxchain.Frame.{
  ok, err, xx_custody, invalid_team_member, invalid_custody_account, must_be_custodian,
  custody_period_ended, governance_custody_active, governance_custody_period_ended,
  team_member_exists, panicked, DispatchResult, ensure, modify, ◌>>=◌, ◌>>◌, Origin, ensure_signed,
  origin_or_root,
}
use xxchain.Frame.StorageMap.{get, insert, remove, contains_key}
use xxchain.Frame.Perbill.{Perbill}
use xxchain.Custody.Pallet.{
  custodian_added, custodian_removed, team_member_updated, Config, Externals, Custody, on_world,
  deposit_event,
}
use xxchain.Custody.Payout.{
  is_custody_done, is_governance_custody_done, remove_custody_proxies, try_payout,
}

module _ {W : Type 0} where
  abbrev pub is_team_member : Custody W → ℕ → Bool
  is_team_member s who = contains_key s.team_accounts who

  abbrev pub is_custody : Custody W → ℕ → Bool
  is_custody s who = contains_key s.custody_accounts who

  abbrev pub is_custodian : Custody W → ℕ → Bool
  is_custodian s who = contains_key s.custodians who

  -- `update_team_member`: the info, taken from the old account, is put under the new one.
  unfoldable pub update_team_member : ℕ → ℕ → DispatchResult (Custody W)
  update_team_member who new s = elim (get s.team_accounts who) [
    | none ↦ (err panicked, s)
    | some info ↦ (ok tt, record s { team_accounts = insert (remove s.team_accounts who) new info })
  ]

module _ (config : Config) (perbill : Perbill) {W : Type 0} (externals : Externals W) where
  unfoldable pub initialize_custody : ℕ → ℕ → Custody W → Custody W
  initialize_custody who amount s =
      let reserve_ratio = perbill.from_rational 55555556 1000000000 in
      let reserve_balance = perbill.times reserve_ratio amount in
      let custody_balance = wrapping_sub u128_mod amount reserve_balance in
      let custody_account = externals.pure_account who 0 in
      let reserve_account = externals.pure_account who 1 in
      record s {
        world =
            externals.deposit_creating reserve_account reserve_balance
              (externals.deposit_creating custody_account custody_balance s.world);
        team_accounts = insert s.team_accounts who (record {
          allocation = amount;
          vested = 0;
          custody = custody_account;
          reserve = reserve_account;
        });
        custody_accounts = insert s.custody_accounts custody_account tt;
        total_custody =
            wrapping_add u128_mod (wrapping_add u128_mod s.total_custody custody_balance)
              reserve_balance;
      }

  -- The genesis build.
  unfoldable pub genesis_build : List (ℕ × ℕ) → Custody W → Custody W
  genesis_build [] s = s
  genesis_build (allocation ∷ rest) s =
      genesis_build rest (initialize_custody allocation.0 allocation.1 s)

  abbrev pub ensure_admin : Origin → DispatchResult (Custody W)
  ensure_admin = origin_or_root config.admin_origin

  abbrev pub check_custody : DispatchResult (Custody W)
  check_custody s =
      ensure (not (is_custody_done config perbill externals s.block_number))
        (xx_custody custody_period_ended) s

  abbrev pub check_governance_custody : Bool → DispatchResult (Custody W)
  check_governance_custody true s =
      ensure (not (is_governance_custody_done config perbill externals s.block_number))
        (xx_custody governance_custody_period_ended) s
  check_governance_custody false s =
      ensure (is_governance_custody_done config perbill externals s.block_number)
        (xx_custody governance_custody_active) s

  unfoldable pub set_custody_governance_proxy : ℕ → ℕ → DispatchResult (Custody W)
  set_custody_governance_proxy custody proxy =
      remove_custody_proxies config perbill externals custody
      >> on_world (externals.add_proxy_delegate custody proxy)

  -- The guards that the calls of custodians share.
  abbrev pub by_custodian : Origin → ℕ → DispatchResult (Custody W) → DispatchResult (Custody W)
  by_custodian origin custody m s =
      (do
        who ← ensure_signed origin
        ensure (is_custodian s who) (xx_custody must_be_custodian)
        ensure (is_custody s custody) (xx_custody invalid_custody_account)
        m)
        s

  unfoldable pub payout : Origin → ℕ → DispatchResult (Custody W)
  payout origin who s =
      (do
        ensure_signed origin
        ensure (is_team_member s who) (xx_custody invalid_team_member)
        try_payout config perbill externals who)
        s

  unfoldable pub custody_bond : Origin → ℕ → ℕ → ℕ → DispatchResult (Custody W)
  custody_bond origin custody controller value =
      by_custodian origin custody
        (check_custody >> on_world (externals.bond custody controller value))

  unfoldable pub custody_bond_extra : Origin → ℕ → ℕ → DispatchResult (Custody W)
  custody_bond_extra origin custody value =
      by_custodian origin custody (check_custody >> on_world (externals.bond_extra custody value))

  unfoldable pub custody_set_controller : Origin → ℕ → ℕ → DispatchResult (Custody W)
  custody_set_controller origin custody controller =
      by_custodian origin custody
        (check_custody >> on_world (externals.set_controller custody controller))

  unfoldable pub custody_set_proxy : Origin → ℕ → ℕ → DispatchResult (Custody W)
  custody_set_proxy origin custody proxy =
      by_custodian origin custody
        (check_governance_custody true >> set_custody_governance_proxy custody proxy)

  -- Steps 2 and 3; `unwrap` panics where there is no info.
  abbrev pub set_own_proxy : ℕ → ℕ → DispatchResult (Custody W)
  set_own_proxy who proxy s = elim (get s.team_accounts who) [
    | none ↦ (err panicked, s)
    | some info ↦ set_custody_governance_proxy info.custody proxy s
  ]

  unfoldable pub try_team_custody_set_proxy : ℕ → ℕ → DispatchResult (Custody W)
  try_team_custody_set_proxy who proxy = check_governance_custody false >> set_own_proxy who proxy

  unfoldable pub team_custody_set_proxy : Origin → ℕ → DispatchResult (Custody W)
  team_custody_set_proxy origin proxy s =
      (do
        who ← ensure_signed origin
        ensure (is_team_member s who) (xx_custody invalid_team_member)
        try_team_custody_set_proxy who proxy)
        s

  unfoldable pub add_custodian : Origin → ℕ → DispatchResult (Custody W)
  add_custodian origin custodian = do
    ensure_admin origin
    modify (λ s. record s { custodians = insert s.custodians custodian tt })
    deposit_event (custodian_added custodian)

  unfoldable pub remove_custodian : Origin → ℕ → DispatchResult (Custody W)
  remove_custodian origin custodian = do
    ensure_admin origin
    modify (λ s. record s { custodians = remove s.custodians custodian })
    deposit_event (custodian_removed custodian)

  unfoldable pub replace_team_member : Origin → ℕ → ℕ → DispatchResult (Custody W)
  replace_team_member origin who new s =
      (do
        ensure_admin origin
        ensure (is_team_member s who) (xx_custody invalid_team_member)
        ensure (not (is_team_member s new)) (xx_custody team_member_exists)
        update_team_member who new
        deposit_event (team_member_updated who new))
        s
