-- ===== src/Custody/Same.antt =====
-- Actions of xx-team-custody that leave the books alone, with one rule for each way to build one.
use xxchain.Common.{ℕ, ◌≡◌, refl, Bool, true, false, inl, inr, Option-cases, nat_eq, arith}
use xxchain.Frame.{
  Origin, Result, ok, err, Exec, DispatchResult, ◌>>=◌, ◌>>◌, ensure, ensure_signed, origin_or_root,
  xx_custody, must_be_custodian, invalid_custody_account, invalid_team_member, modify,
}
use xxchain.Frame.StorageMap.{get, insert, remove}
use xxchain.Frame.Perbill.{Perbill}
use xxchain.Custody.Pallet.{
  Config, Externals, Custody, on_world, deposit_event, custodian_added, custodian_removed,
}
use xxchain.Custody.Payout.{remove_custody_proxies}
use xxchain.Custody.Calls
use xxchain.Custody.Calls.{
  is_custodian, is_custody, is_team_member, check_custody, check_governance_custody,
  set_custody_governance_proxy, by_custodian,
}
use xxchain.Custody.Balance.{SameBooks, SameBooks-refl, SameBooks-trans}

module _ {W : Type 0} where
  pub record Still {A : Type 0} (m : Exec (Custody W) A) : Type 0 where
    pub at : (s : Custody W) → SameBooks s (m s).1

  Still-continue :
      {A B : Type 0} (r : Result A) (f : A → Exec (Custody W) B) (s t : Custody W)
      → ((a : A) → Still (f a))
      → SameBooks s t
      → let after : Exec (Custody W) A = λ _. (r, t) in SameBooks s ((after >>= f) s).1
  Still-continue (ok a) f s t rest same = SameBooks-trans s t (f a t).1 same ((rest a).at t)
  Still-continue (err e) f s t rest same = same

  Still-bind :
      {A B : Type 0} (m : Exec (Custody W) A) (f : A → Exec (Custody W) B)
      → Still m
      → ((a : A) → Still (f a))
      → Still (m >>= f)
  Still-bind m f first rest = record {
    at = λ s. Still-continue (m s).0 f s (m s).1 rest (first.at s);
  }

  Still-on_world : {A : Type 0} (m : Exec W A) → Still (on_world m)
  Still-on_world m = record { at = λ s. record { accounts = refl; held = refl; time = refl } }

  Still-none : {A : Type 0} (m : Exec (Custody W) A) → ((s : Custody W) → (m s).1 ≡ s) → Still m
  Still-none m same = record { at = λ s. rw (same s) (SameBooks-refl s) }

  Still-origin : (admin : Origin → Bool) (o : Origin) → Still (origin_or_root admin o)
  Still-origin admin Origin.root = Still-none _ (λ s. ground arith)
  Still-origin admin o = Still-none _ (λ s. ground arith)

  Still-signed : (o : Origin) → Still (ensure_signed {S = Custody W} o)
  Still-signed (Origin.signed who) = Still-none _ (λ s. refl)
  Still-signed o = Still-none _ (λ s. refl)

module _ (config : Config) (perbill : Perbill) {W : Type 0} (externals : Externals W) where
  Still-by_custodian :
      (o : Origin) (custody : ℕ) (m : DispatchResult (Custody W))
      → Still m
      → Still (by_custodian config perbill externals o custody m)
  Still-by_custodian o custody m still = record {
    at = λ s.
        (Still-bind (ensure_signed o)
            (λ who.
              ensure (is_custodian s who) (xx_custody must_be_custodian)
              >> (ensure (is_custody s custody) (xx_custody invalid_custody_account) >> m))
            (Still-signed o)
            (λ who.
              Still-bind (ensure (is_custodian s who) (xx_custody must_be_custodian))
                (λ _. ensure (is_custody s custody) (xx_custody invalid_custody_account) >> m)
                (Still-none _ (λ s. refl))
                (λ _.
                  Still-bind (ensure (is_custody s custody) (xx_custody invalid_custody_account))
                    (λ _. m) (Still-none _ (λ s. refl)) (λ _. still)))).at
          s;
  }

  Still-in_custody :
      (m : DispatchResult W) → Still (check_custody config perbill externals >> on_world m)
  Still-in_custody m =
      Still-bind (check_custody config perbill externals) (λ _. on_world m)
        (Still-none _ (λ s. refl)) (λ _. Still-on_world m)

  Still-check_governance :
      (active : Bool) → Still (check_governance_custody config perbill externals active)
  Still-check_governance true = Still-none _ (λ s. refl)
  Still-check_governance false = Still-none _ (λ s. refl)

  Still-set_proxy :
      (custody proxy : ℕ)
      → Still (set_custody_governance_proxy config perbill externals custody proxy)
  unfolding set_custody_governance_proxy remove_custody_proxies
  Still-set_proxy custody proxy =
      Still-bind (remove_custody_proxies config perbill externals custody)
        (λ _. on_world (externals.add_proxy_delegate custody proxy))
        (record { at = λ s. record { accounts = refl; held = refl; time = refl } })
        (λ _. Still-on_world (externals.add_proxy_delegate custody proxy))

  pub custody_bond-Still :
      (o : Origin) (custody controller value : ℕ)
      → Still (Calls.custody_bond config perbill externals o custody controller value)
  unfolding Calls.custody_bond
  custody_bond-Still o custody controller value =
      Still-by_custodian o custody _ (Still-in_custody (externals.bond custody controller value))

  pub custody_bond_extra-Still :
      (o : Origin) (custody value : ℕ)
      → Still (Calls.custody_bond_extra config perbill externals o custody value)
  unfolding Calls.custody_bond_extra
  custody_bond_extra-Still o custody value =
      Still-by_custodian o custody _ (Still-in_custody (externals.bond_extra custody value))

  pub custody_set_controller-Still :
      (o : Origin) (custody controller : ℕ)
      → Still (Calls.custody_set_controller config perbill externals o custody controller)
  unfolding Calls.custody_set_controller
  custody_set_controller-Still o custody controller =
      Still-by_custodian o custody _
        (Still-in_custody (externals.set_controller custody controller))

  pub custody_set_proxy-Still :
      (o : Origin) (custody proxy : ℕ)
      → Still (Calls.custody_set_proxy config perbill externals o custody proxy)
  unfolding Calls.custody_set_proxy
  custody_set_proxy-Still o custody proxy = Still-by_custodian o custody _ (
      Still-bind (check_governance_custody config perbill externals true)
        (λ _. set_custody_governance_proxy config perbill externals custody proxy)
        (Still-check_governance true) (λ _. Still-set_proxy custody proxy))

  Still-own_proxy :
      (who proxy : ℕ) → Still (Calls.try_team_custody_set_proxy config perbill externals who proxy)
  unfolding Calls.try_team_custody_set_proxy
  Still-own_proxy who proxy = record {
    at =
        (Still-bind (check_governance_custody config perbill externals false)
          (λ _. Calls.set_own_proxy config perbill externals who proxy)
          (Still-check_governance false)
          (λ _. record {
            at = λ s. elim (Option-cases (get s.team_accounts who)) [
              | inl missing ↦ rw (missing, Calls.set_own_proxy) (SameBooks-refl s)
              | inr (info, stored) ↦
                  rw (stored, Calls.set_own_proxy) ((Still-set_proxy info.custody proxy).at s)
            ];
          })).at;
  }

  pub team_custody_set_proxy-Still :
      (o : Origin) (proxy : ℕ)
      → Still (Calls.team_custody_set_proxy config perbill externals o proxy)
  unfolding Calls.team_custody_set_proxy
  team_custody_set_proxy-Still o proxy = record {
    at = λ s.
        (Still-bind (ensure_signed o)
            (λ who.
              ensure (is_team_member s who) (xx_custody invalid_team_member)
              >> Calls.try_team_custody_set_proxy config perbill externals who proxy)
            (Still-signed o)
            (λ who.
              Still-bind (ensure (is_team_member s who) (xx_custody invalid_team_member))
                (λ _. Calls.try_team_custody_set_proxy config perbill externals who proxy)
                (Still-none _ (λ s. refl)) (λ _. Still-own_proxy who proxy))).at
          s;
  }

  pub add_custodian-Still :
      (o : Origin) (who : ℕ) → Still (Calls.add_custodian config perbill externals o who)
  unfolding Calls.add_custodian
  add_custodian-Still o who =
      Still-bind (origin_or_root config.admin_origin o)
        (λ _.
          modify (λ s. record s { custodians = insert s.custodians who tt })
          >> deposit_event (custodian_added who))
        (Still-origin config.admin_origin o)
        (λ _. record { at = λ s. record { accounts = refl; held = refl; time = refl } })

  pub remove_custodian-Still :
      (o : Origin) (who : ℕ) → Still (Calls.remove_custodian config perbill externals o who)
  unfolding Calls.remove_custodian
  remove_custodian-Still o who =
      Still-bind (origin_or_root config.admin_origin o)
        (λ _.
          modify (λ s. record s { custodians = remove s.custodians who })
          >> deposit_event (custodian_removed who))
        (Still-origin config.admin_origin o)
        (λ _. record { at = λ s. record { accounts = refl; held = refl; time = refl } })
