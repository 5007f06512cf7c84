-- ===== src/Claims/Process.antt =====
-- process_claim of claims/src/lib.rs.
use xxchain.Common.{
  ℕ, not, ◌&&◌, Option, none, some, List, [], ◌∷◌, is_some, unwrap_or, checked_sub, list_eq, nat_eq,
}
use xxchain.Frame.{
  claims_error, signer_has_no_claim, pot_underflow, vested_balance_exists, DispatchResult, ok_or,
  gets, ensure, modify, ◌>>=◌, ◌>>◌,
}
use xxchain.Frame.StorageMap.{get, remove}
use xxchain.Claims.Storage.{
  Claims, EthereumAddress, Externals, RewardHandler, Schedule, claimed, deposit_event,
}

module _ {W : Type 0} (externals : Externals W) (handler : RewardHandler W) where
  -- `vs.iter().for_each(...)`, which ignores the results.
  unfoldable pub add_schedules : ℕ → List Schedule → W → W
  add_schedules dest [] w = w
  add_schedules dest (v ∷ vs) w =
      add_schedules dest vs (externals.add_vesting_schedule dest v.0 v.1 v.2 w).1

  -- `if let Some(vs) = vesting`
  abbrev pub add_optional : ℕ → Option (List Schedule) → W → W
  add_optional dest none w = w
  add_optional dest (some vs) w = add_schedules dest vs w

  -- `if let Some(rw) = reward`
  abbrev pub call_handler : ℕ → ℕ → Option ℕ → W → W
  call_handler dest balance_due none w = w
  call_handler dest balance_due (some reward) w = handler.add_claimed dest balance_due reward w

  -- What follows the checks.
  unfoldable pub settle : EthereumAddress → ℕ → ℕ → ℕ → DispatchResult (Claims W)
  settle signer dest balance_due new_total = do
    modify (λ s. record s { world = externals.deposit_creating dest balance_due s.world })
    modify (λ s. record s { world = add_optional dest (get s.vesting signer) s.world })
    reward ← gets (λ s. get s.rewards signer)
    modify (λ s. record s { rewards = remove s.rewards signer })
    modify (λ s. record s { world = call_handler dest balance_due reward s.world })
    modify (λ s. record s {
      total = new_total;
      claims = remove s.claims signer;
      vesting = remove s.vesting signer;
      signing = remove s.signing signer;
    })
    deposit_event (claimed dest signer balance_due (unwrap_or reward 0))

  unfoldable pub process_claim : EthereumAddress → ℕ → DispatchResult (Claims W)
  process_claim signer dest s =
      (do
        balance_due ← ok_or (get s.claims signer) (claims_error signer_has_no_claim)
        new_total ← ok_or (checked_sub s.total balance_due) (claims_error pot_underflow)
        ensure
            (not
              (is_some (get s.vesting signer) && is_some (externals.vesting_balance s.world dest)))
            (claims_error vested_balance_exists)
        settle signer dest balance_due new_total)
        s
