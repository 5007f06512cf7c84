-- ===== src/Custody/Guards.antt =====
-- What the guards of xx-team-custody/src/lib.rs ask for.
use xxchain.Common.{
  ℕ, ◌≡◌, refl, Bool, true, false, not, ◌||◌, ◌&&◌, arith, inl, inr, Bool-cases, nat_eq,
}
use xxchain.Frame.{
  Origin, Refuses, bad_origin, xx_custody, must_be_custodian, invalid_custody_account,
  invalid_team_member, team_member_exists, custody_period_ended, governance_custody_period_ended,
  DispatchResult, is_root, ok, err, bind-err, ◌>>◌, ensure, origin_or_root,
}
use xxchain.Frame.Perbill.{Perbill}
use xxchain.Custody.Pallet.{Config, Externals, Custody}
use xxchain.Custody.Payout.{is_custody_done, is_governance_custody_done}
use xxchain.Custody.Calls.{
  is_team_member, is_custody, is_custodian, by_custodian, check_custody, check_governance_custody,
}
use xxchain.Custody.History.{
  Call, payout, custody_bond, custody_bond_extra, custody_set_controller, custody_set_proxy,
  team_custody_set_proxy, add_custodian, remove_custodian, replace_team_member,
}

module _ (config : Config) (perbill : Perbill) {W : Type 0} (externals : Externals W) where
  -- A signed custodian, for an account under custody.
  abbrev pub custodian_for : Custody W → Origin → ℕ → Bool
  custodian_for s (Origin.signed who) custody = is_custodian s who && is_custody s custody
  custodian_for s _ custody = false

  abbrev pub signed_member : Custody W → Origin → Bool
  signed_member s (Origin.signed who) = is_team_member s who
  signed_member s _ = false

  abbrev pub signed_by_anyone : Origin → Bool
  signed_by_anyone (Origin.signed who) = true
  signed_by_anyone _ = false

  abbrev pub in_custody : Custody W → Bool
  in_custody s = not (is_custody_done config perbill externals s.block_number)

  abbrev pub in_governance : Custody W → Bool
  in_governance s = not (is_governance_custody_done config perbill externals s.block_number)

  -- What each call asks for.
  abbrev pub permitted : Custody W → Origin → Call → Bool
  permitted s o (payout who) = signed_by_anyone o && is_team_member s who
  permitted s o (custody_bond custody controller value) = custodian_for s o custody && in_custody s
  permitted s o (custody_bond_extra custody value) = custodian_for s o custody && in_custody s
  permitted s o (custody_set_controller custody controller) =
      custodian_for s o custody && in_custody s
  permitted s o (custody_set_proxy custody proxy) = custodian_for s o custody && in_governance s
  permitted s o (team_custody_set_proxy proxy) = signed_member s o && not (in_governance s)
  permitted s o (add_custodian who) = config.admin_origin o || is_root o
  permitted s o (remove_custodian who) = config.admin_origin o || is_root o
  permitted s o (replace_team_member who new) =
      (config.admin_origin o || is_root o) && is_team_member s who && not (is_team_member s new)

  -- The guards of a custodian's call and then one on the period.
  pub custodian-Refuses :
      (s : Custody W) (o : Origin) (custody : ℕ) (period : Bool)
      (check m : DispatchResult (Custody W))
      → (period ≡ false → Refuses (check >> m) s)
      → (custodian_for s o custody && period) ≡ false
      → Refuses (by_custodian config perbill externals o custody (check >> m)) s
  custodian-Refuses s (Origin.signed who) custody period check m late h =
      elim (Bool-cases (is_custodian s who)) [
        | inr stranger ↦ (xx_custody must_be_custodian, rw stranger refl)
        | inl member ↦ elim (Bool-cases (is_custody s custody)) [
          | inr other ↦ (xx_custody invalid_custody_account, rw (member, other) refl)
          | inl held ↦ let (e, same) = late (ground arith) in (e, rw (member, held) same)
        ]
      ]
  custodian-Refuses s o custody period check m late h = (bad_origin, refl)

  pub ended-Refuses :
      (s : Custody W) (m : DispatchResult (Custody W))
      → in_custody s ≡ false
      → Refuses (check_custody config perbill externals >> m) s
  ended-Refuses s m h =
      let refused : check_custody config perbill externals s
          ≡ (err (xx_custody custody_period_ended), s) =
        ground arith in
      (
        xx_custody custody_period_ended,
        bind-err (check_custody config perbill externals) (λ _. m) refused,
      )

  pub governed-Refuses :
      (s : Custody W) (m : DispatchResult (Custody W))
      → in_governance s ≡ false
      → Refuses (check_governance_custody config perbill externals true >> m) s
  governed-Refuses s m h =
      let refused : check_governance_custody config perbill externals true s
          ≡ (err (xx_custody governance_custody_period_ended), s) =
        ground arith in
      (
        xx_custody governance_custody_period_ended,
        bind-err (check_governance_custody config perbill externals true) (λ _. m) refused,
      )

  pub admin-Refuses :
      (s : Custody W) (o : Origin) (m : DispatchResult (Custody W))
      → (config.admin_origin o || is_root o) ≡ false
      → Refuses (origin_or_root config.admin_origin o >> m) s
  admin-Refuses s Origin.root m h = absurd (ground arith)
  admin-Refuses s o m h = (bad_origin, ground arith)

  pub passed :
      (s : Custody W) (o : Origin)
      → (config.admin_origin o || is_root o) ≡ true
      → origin_or_root config.admin_origin o s ≡ (ok tt, s)
  passed s Origin.root h = ground arith
  passed s o h = ground arith

  -- The guards on the two accounts.
  pub accounts-Refuses :
      (s : Custody W) (who new : ℕ) (m : DispatchResult (Custody W))
      → (is_team_member s who && not (is_team_member s new)) ≡ false
      → Refuses
          (ensure (is_team_member s who) (xx_custody invalid_team_member)
            >> (ensure (not (is_team_member s new)) (xx_custody team_member_exists) >> m))
          s
  accounts-Refuses s who new m h = elim (Bool-cases (is_team_member s who)) [
    | inr unknown ↦ (xx_custody invalid_team_member, rw unknown refl)
    | inl member ↦
        let taken : is_team_member s new ≡ true = ground arith in
        (xx_custody team_member_exists, rw (member, taken) refl)
  ]
