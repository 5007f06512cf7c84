-- ===== src/Cmix/Authority.antt =====
-- Who may call what in xx-cmix/src/lib.rs, and when.
use xxchain.Common.{
  ℕ, ◌≡◌, refl, Bool, true, false, ◌||◌, ◌&&◌, List, some, arith, leb, inl, inr, Bool-cases,
}
use xxchain.Frame.{
  Origin, bad_origin, xx_cmix, admin_permission_expired, must_be_scheduling, DispatchResult,
  is_root, Refuses, ◌>>=◌, ◌>>◌, modify, origin_or_root, ensure_signed, ensure, ensure_root,
}
use xxchain.Cmix.Variables.{SoftwareHashes, Variables}
use xxchain.Cmix.Pallet.{Config, Staking, Cmix, is_scheduling, ensure_admin_allowed, deposit_event}
use xxchain.Cmix.Pallet

-- `enum Call`.
pub data Call : Type 0 where
  set_cmix_hashes : SoftwareHashes → Call
  set_scheduling_account : ℕ → Call
  set_next_cmix_variables : Variables → Call
  submit_cmix_points submit_cmix_deductions : List (ℕ × ℕ) → Call
  set_cmix_address_space set_admin_permission : ℕ → Call

module _ (config : Config) {W : Type 0} (staking : Staking W) where
  unfoldable pub run : Origin → Call → DispatchResult (Cmix W)
  run o (set_cmix_hashes hashes) = Pallet.set_cmix_hashes config staking o hashes
  run o (set_scheduling_account who) = Pallet.set_scheduling_account config staking o who
  run o (set_next_cmix_variables v) = Pallet.set_next_cmix_variables config staking o v
  run o (submit_cmix_points points) = Pallet.submit_cmix_points config staking o points
  run o (submit_cmix_deductions points) = Pallet.submit_cmix_deductions config staking o points
  run o (set_cmix_address_space size) = Pallet.set_cmix_address_space config staking o size
  run o (set_admin_permission n) = Pallet.set_admin_permission config staking o n

  -- The signed scheduling account.
  abbrev pub is_scheduling_origin : Cmix W → Origin → Bool
  is_scheduling_origin s (Origin.signed who) = is_scheduling s who
  is_scheduling_origin s _ = false

  -- What each call asks for.
  abbrev pub permitted : Cmix W → Origin → Call → Bool
  permitted s o (set_cmix_hashes hashes) =
      (config.admin_origin o || is_root o) && leb s.block_number s.admin_permission
  permitted s o (set_scheduling_account who) = config.admin_origin o || is_root o
  permitted s o (set_next_cmix_variables v) = config.cmix_variables_origin o || is_root o
  permitted s o (set_admin_permission n) = is_root o
  permitted s o _ = is_scheduling_origin s o

  origin-Refuses :
      (admin : Origin → Bool) (s : Cmix W) (o : Origin) (m : DispatchResult (Cmix W))
      → (admin o || is_root o) ≡ false
      → Refuses (origin_or_root admin o >> m) s
  origin-Refuses admin s Origin.root m h = absurd (ground arith)
  origin-Refuses admin s o m h = (bad_origin, ground arith)

  root-Refuses :
      (s : Cmix W) (o : Origin) (m : DispatchResult (Cmix W))
      → is_root o ≡ false
      → Refuses (ensure_root o >> m) s
  root-Refuses s Origin.root m h = cc
  root-Refuses s o m h = (bad_origin, refl)

  late-Refuses :
      (s : Cmix W) (o : Origin) (m : DispatchResult (Cmix W))
      → leb s.block_number s.admin_permission ≡ false
      → Refuses (origin_or_root config.admin_origin o >> (ensure_admin_allowed >> m)) s
  late-Refuses s o m late = elim (Bool-cases (config.admin_origin o || is_root o)) [
    | inl admin ↦ go o admin
    | inr stranger ↦ origin-Refuses config.admin_origin s o (ensure_admin_allowed >> m) stranger
  ]
    where
      go :
          (o : Origin)
          → (config.admin_origin o || is_root o) ≡ true
          → Refuses (origin_or_root config.admin_origin o >> (ensure_admin_allowed >> m)) s
      go Origin.root h = (xx_cmix admin_permission_expired, ground arith)
      go o h = (xx_cmix admin_permission_expired, ground arith)

  scheduling-Refuses :
      (s : Cmix W) (o : Origin) (m : DispatchResult (Cmix W))
      → is_scheduling_origin s o ≡ false
      → Refuses
          (do who ← ensure_signed o; ensure (is_scheduling s who) (xx_cmix must_be_scheduling); m)
          s
  scheduling-Refuses s (Origin.signed who) m h = (xx_cmix must_be_scheduling, rw h refl)
  scheduling-Refuses s o m h = (bad_origin, refl)

  hashes-Refuses :
      (s : Cmix W) (o : Origin) (m : DispatchResult (Cmix W))
      → ((config.admin_origin o || is_root o) && leb s.block_number s.admin_permission) ≡ false
      → Refuses (origin_or_root config.admin_origin o >> (ensure_admin_allowed >> m)) s
  hashes-Refuses s o m h = elim (Bool-cases (leb s.block_number s.admin_permission)) [
    | inl early ↦ origin-Refuses config.admin_origin s o (ensure_admin_allowed >> m) (ground arith)
    | inr late ↦ late-Refuses s o m late
  ]

  -- A call that is not permitted fails and changes nothing: the software hashes are set by the
  -- administrator or root and by neither after the block of the admin permission, the scheduling
  -- account by the administrator or root, the next variables by their origin or root, the admin
  -- permission by root only, and points, deductions and the address space by the stored scheduling
  -- account only.
  pub cmix-Refuses :
      (s : Cmix W) (o : Origin) (c : Call) → permitted s o c ≡ false → Refuses (run o c) s
  unfolding run Pallet.set_cmix_hashes Pallet.set_scheduling_account Pallet.set_next_cmix_variables
      Pallet.submit_cmix_points Pallet.submit_cmix_deductions Pallet.set_cmix_address_space
      Pallet.set_admin_permission
  cmix-Refuses s o (set_cmix_hashes hashes) h =
      hashes-Refuses s o
        (modify (λ s. record s { cmix_hashes = hashes })
          >> deposit_event Pallet.cmix_hashes_updated)
        h
  cmix-Refuses s o (set_scheduling_account who) h =
      origin-Refuses config.admin_origin s o
        (modify (λ s. record s { scheduling_account = some who })
          >> deposit_event Pallet.scheduling_account_updated)
        h
  cmix-Refuses s o (set_next_cmix_variables v) h =
      origin-Refuses config.cmix_variables_origin s o
        (modify (λ s. record s { next_cmix_variables = some v })) h
  cmix-Refuses s o (set_admin_permission n) h =
      root-Refuses s o
        (modify (λ s. record s { admin_permission = n })
          >> deposit_event (Pallet.admin_permission_updated n))
        h
  cmix-Refuses s o (submit_cmix_points points) h =
      scheduling-Refuses s o
        (modify (λ s. record s { staking = staking.reward_by_ids points s.staking })
          >> deposit_event Pallet.cmix_points_added)
        h
  cmix-Refuses s o (submit_cmix_deductions points) h =
      scheduling-Refuses s o
        (modify (λ s. record s { staking = staking.deduct_by_ids points s.staking })
          >> deposit_event Pallet.cmix_points_deducted)
        h
  cmix-Refuses s o (set_cmix_address_space size) h =
      scheduling-Refuses s o
        (modify (λ s. record s { cmix_address_space = size })
          >> deposit_event Pallet.cmix_address_space_updated)
        h
