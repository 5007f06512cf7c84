-- ===== src/Public/Authority.antt =====
-- Who may call what in xx-public/src/lib.rs.
use xxchain.Common.{ℕ, ◌≡◌, refl, Bool, false, ◌||◌, Option, some, List, arith, nat_eq}
use xxchain.Frame.{
  Origin, bad_origin, xx_public, must_be_testnet_manager, must_be_sale_manager, DispatchResult,
  is_root, ◌>>◌, modify, Refuses,
}
use xxchain.Frame.Currency.{Currency, Vesting}
use xxchain.Public.Pallet.{
  Config, Public, TransferData, is_manager, testnet_manager_updated, sale_manager_updated,
  deposit_event,
}
use xxchain.Public.Pallet

-- `enum Call`.
pub data Call : Type 0 where
  set_testnet_manager_account set_sale_manager_account : ℕ → Call
  testnet_distribute sale_distribute : List TransferData → Call

-- A signed manager.
abbrev pub is_signed_by : Option ℕ → Origin → Bool
is_signed_by manager (Origin.signed who) = is_manager manager who
is_signed_by manager _ = false

module _ (config : Config) {Bank : Type 0} (currency : Currency Bank) (vesting : Vesting Bank) where
  unfoldable pub run : Origin → Call → DispatchResult (Public Bank)
  run o (set_testnet_manager_account who) =
      Pallet.set_testnet_manager_account config currency vesting o who
  run o (set_sale_manager_account who) =
      Pallet.set_sale_manager_account config currency vesting o who
  run o (testnet_distribute xs) = Pallet.testnet_distribute config currency vesting o xs
  run o (sale_distribute xs) = Pallet.sale_distribute config currency vesting o xs

  -- What each call asks for.
  abbrev pub permitted : Public Bank → Origin → Call → Bool
  permitted s o (testnet_distribute xs) = is_signed_by s.testnet_manager o
  permitted s o (sale_distribute xs) = is_signed_by s.sale_manager o
  permitted s o _ = config.admin_origin o || is_root o

  admin-Refuses :
      (s : Public Bank) (o : Origin) (m : DispatchResult (Public Bank))
      → (config.admin_origin o || is_root o) ≡ false
      → Refuses (Pallet.ensure_admin config currency vesting o >> m) s
  unfolding Pallet.ensure_admin
  admin-Refuses s Origin.root m h = absurd (ground arith)
  admin-Refuses s o m h = (bad_origin, ground arith)

  testnet_distribute-Refuses :
      (s : Public Bank) (o : Origin) (xs : List TransferData)
      → is_signed_by s.testnet_manager o ≡ false
      → Refuses (Pallet.testnet_distribute config currency vesting o xs) s
  unfolding Pallet.testnet_distribute
  testnet_distribute-Refuses s (Origin.signed who) xs h =
      (xx_public must_be_testnet_manager, rw h refl)
  testnet_distribute-Refuses s o xs h = (bad_origin, refl)

  sale_distribute-Refuses :
      (s : Public Bank) (o : Origin) (xs : List TransferData)
      → is_signed_by s.sale_manager o ≡ false
      → Refuses (Pallet.sale_distribute config currency vesting o xs) s
  unfolding Pallet.sale_distribute
  sale_distribute-Refuses s (Origin.signed who) xs h = (xx_public must_be_sale_manager, rw h refl)
  sale_distribute-Refuses s o xs h = (bad_origin, refl)

  -- A call that is not permitted fails and changes nothing: the managers are set by the
  -- administrator or root only, a testnet distribution is made by the stored testnet manager only,
  -- and a sale distribution by the stored sale manager only, never while there is none.
  pub public-Refuses :
      (s : Public Bank) (o : Origin) (c : Call) → permitted s o c ≡ false → Refuses (run o c) s
  unfolding run Pallet.set_testnet_manager_account Pallet.set_sale_manager_account
  public-Refuses s o (set_testnet_manager_account who) h =
      admin-Refuses s o
        (modify (λ s. record s { testnet_manager = some who })
          >> deposit_event testnet_manager_updated)
        h
  public-Refuses s o (set_sale_manager_account who) h =
      admin-Refuses s o
        (modify (λ s. record s { sale_manager = some who }) >> deposit_event sale_manager_updated) h
  public-Refuses s o (testnet_distribute xs) h = testnet_distribute-Refuses s o xs h
  public-Refuses s o (sale_distribute xs) h = sale_distribute-Refuses s o xs h
