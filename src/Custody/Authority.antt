-- ===== src/Custody/Authority.antt =====
-- Who may call what in xx-team-custody/src/lib.rs, and when.
use xxchain.Common.{
  ℕ, ◌≡◌, refl, ◌∙◌, true, false, not, ◌||◌, ◌&&◌, arith, inl, inr, Bool-cases, nat_eq,
}
use xxchain.Frame.{
  Origin, Refuses, bad_origin, xx_custody, invalid_team_member, team_member_exists,
  governance_custody_active, DispatchResult, is_root, err, bind-ok, bind-err, ◌>>◌, modify, ensure,
  origin_or_root,
}
use xxchain.Frame.StorageMap.{insert, remove}
use xxchain.Frame.Perbill.{Perbill}
use xxchain.Custody.Pallet.{
  Config, Externals, Custody, on_world, deposit_event, custodian_added, custodian_removed,
  team_member_updated,
}
use xxchain.Custody.Payout.{is_governance_custody_done}
use xxchain.Custody.Calls.{
  is_team_member, is_custody, is_custodian, by_custodian, check_custody, check_governance_custody,
  set_custody_governance_proxy, try_team_custody_set_proxy, update_team_member,
}
use xxchain.Custody.Calls
use xxchain.Custody.History.{
  Call, payout, custody_bond, custody_bond_extra, custody_set_controller, custody_set_proxy,
  team_custody_set_proxy, add_custodian, remove_custodian, replace_team_member, run,
}
use xxchain.Custody.Guards.{
  permitted, signed_member, signed_by_anyone, in_custody, in_governance, custodian-Refuses,
  ended-Refuses, governed-Refuses, admin-Refuses, passed, accounts-Refuses,
}

module _ (config : Config) (perbill : Perbill) {W : Type 0} (externals : Externals W) where
  payout-Refuses :
      (s : Custody W) (o : Origin) (who : ℕ)
      → (signed_by_anyone config perbill externals o && is_team_member s who) ≡ false
      → Refuses (Calls.payout config perbill externals o who) s
  unfolding Calls.payout
  payout-Refuses s (Origin.signed x) who h = (xx_custody invalid_team_member, rw h refl)
  payout-Refuses s o who h = (bad_origin, refl)

  early-Refuses :
      (s : Custody W) (who proxy : ℕ)
      → is_governance_custody_done config perbill externals s.block_number ≡ false
      → Refuses (try_team_custody_set_proxy config perbill externals who proxy) s
  unfolding try_team_custody_set_proxy
  early-Refuses s who proxy early =
      let refused : check_governance_custody config perbill externals false s
          ≡ (err (xx_custody governance_custody_active), s) =
        ground arith in
      (
        xx_custody governance_custody_active,
        bind-err (check_governance_custody config perbill externals false)
            (λ _. Calls.set_own_proxy config perbill externals who proxy) refused,
      )

  own_proxy-Refuses :
      (s : Custody W) (o : Origin) (proxy : ℕ)
      → (signed_member config perbill externals s o
          && not (in_governance config perbill externals s))
        ≡ false
      → Refuses (Calls.team_custody_set_proxy config perbill externals o proxy) s
  unfolding Calls.team_custody_set_proxy
  own_proxy-Refuses s (Origin.signed who) proxy h = elim (Bool-cases (is_team_member s who)) [
    | inr stranger ↦ (xx_custody invalid_team_member, rw stranger refl)
    | inl member ↦ let (e, same) = early-Refuses s who proxy (ground arith) in (e, rw member same)
  ]
  own_proxy-Refuses s o proxy h = (bad_origin, refl)

  replace-Refuses :
      (s : Custody W) (o : Origin) (who new : ℕ)
      → ((config.admin_origin o || is_root o) && is_team_member s who && not (is_team_member s new))
        ≡ false
      → Refuses (Calls.replace_team_member config perbill externals o who new) s
  unfolding Calls.replace_team_member
  replace-Refuses s o who new h =
      let rest : DispatchResult (Custody W) =
        update_team_member who new >> deposit_event (team_member_updated who new) in
      let guarded : DispatchResult (Custody W) =
        ensure (is_team_member s who) (xx_custody invalid_team_member)
        >> (ensure (not (is_team_member s new)) (xx_custody team_member_exists) >> rest) in
      elim (Bool-cases (config.admin_origin o || is_root o)) [
        | inr stranger ↦ admin-Refuses config perbill externals s o guarded stranger
        | inl admin ↦
            let (e, same) =
              accounts-Refuses config perbill externals s who new rest (ground arith) in
            (
              e,
              bind-ok (origin_or_root config.admin_origin o) (λ _. guarded)
                    (passed config perbill externals s o admin)
                  ∙ same,
            )
      ]

  -- A call that is not permitted fails and changes nothing: a payout to an account that is no member
  -- or without a signature; a call of a custodian by anyone else, for an account that is not under
  -- custody, or after the end of the custody, for a proxy of the governance custody; a member's own
  -- proxy by anyone else or before that end; custodians and members set by anyone but the
  -- administrator or root, or a member replaced that is none or by one that is.
  pub custody-Refuses :
      (s : Custody W) (o : Origin) (c : Call)
      → permitted config perbill externals s o c ≡ false
      → Refuses (run config perbill externals o c) s
  unfolding run Calls.custody_bond Calls.custody_bond_extra Calls.custody_set_controller
      Calls.custody_set_proxy Calls.add_custodian Calls.remove_custodian
  custody-Refuses s o (payout who) h = payout-Refuses s o who h
  custody-Refuses s o (custody_bond custody controller value) h =
      let m : DispatchResult (Custody W) = on_world (externals.bond custody controller value) in
      custodian-Refuses config perbill externals s o custody (in_custody config perbill externals s)
        (check_custody config perbill externals) m (ended-Refuses config perbill externals s m) h
  custody-Refuses s o (custody_bond_extra custody value) h =
      let m : DispatchResult (Custody W) = on_world (externals.bond_extra custody value) in
      custodian-Refuses config perbill externals s o custody (in_custody config perbill externals s)
        (check_custody config perbill externals) m (ended-Refuses config perbill externals s m) h
  custody-Refuses s o (custody_set_controller custody controller) h =
      let m : DispatchResult (Custody W) = on_world (externals.set_controller custody controller) in
      custodian-Refuses config perbill externals s o custody (in_custody config perbill externals s)
        (check_custody config perbill externals) m (ended-Refuses config perbill externals s m) h
  custody-Refuses s o (custody_set_proxy custody proxy) h =
      let m = set_custody_governance_proxy config perbill externals custody proxy in
      custodian-Refuses config perbill externals s o custody
        (in_governance config perbill externals s)
        (check_governance_custody config perbill externals true) m
        (governed-Refuses config perbill externals s m) h
  custody-Refuses s o (team_custody_set_proxy proxy) h = own_proxy-Refuses s o proxy h
  custody-Refuses s o (add_custodian who) h =
      admin-Refuses config perbill externals s o
        (modify (λ s. record s { custodians = insert s.custodians who tt })
          >> deposit_event (custodian_added who))
        h
  custody-Refuses s o (remove_custodian who) h =
      admin-Refuses config perbill externals s o
        (modify (λ s. record s { custodians = remove s.custodians who })
          >> deposit_event (custodian_removed who))
        h
  custody-Refuses s o (replace_team_member who new) h = replace-Refuses s o who new h
