-- ===== src/Betanet/Locks.antt =====
-- What the enactment in xx-betanet-rewards/src/lib.rs locks in a leftover claim.
use xxchain.Common.{
  ℕ, ◌+◌, ◌-◌, ◌/◌, ◌≡◌, ◌≢◌, refl, ap, ◌∙◌, List, [], ◌∷◌, ◌++◌, arith, list_eq, list_beq_iff,
  nat_eq, inl, inr, Bool-cases, Option-cases, ◌==◌, nat_beq_iff, u128_mod, unwrap_or, wrapping_add,
}
use xxchain.Frame.Perbill.{Perbill}
use xxchain.Frame.StorageMap.{get, get-insert, get-insert_self}
use xxchain.Claims.Storage.{Claims, EthereumAddress, Schedule}
use xxchain.Betanet.Options.{default_option, principal_lock, vesting_period}
use xxchain.Betanet.Pallet.{Betanet}
use xxchain.Betanet.Enact.{
  Externals, locked_at, subtract_locked, compute_claims_vesting_lock, lock_claim,
}

module _ (p : Perbill) (enactment_block : ℕ) where
  -- What all schedules lock at the enactment block.
  abbrev pub sum_locked : List Schedule → ℕ
  sum_locked [] = 0
  sum_locked (vs ∷ schedules) = locked_at p enactment_block vs + sum_locked schedules

  sum_locked-append :
      (xs ys : List Schedule) → sum_locked (xs ++ ys) ≡ sum_locked xs + sum_locked ys
  sum_locked-append [] ys = omega arith
  sum_locked-append (x ∷ xs) ys = omega (arith, sum_locked-append xs ys)

  subtract_locked_lem :
      (lock : ℕ) (schedules : List Schedule)
      → subtract_locked p enactment_block lock schedules ≡ lock - sum_locked schedules
  unfolding subtract_locked
  subtract_locked_lem lock [] = omega arith
  subtract_locked_lem lock (vs ∷ schedules) =
      omega (arith, subtract_locked_lem (lock - locked_at p enactment_block vs) schedules)

  -- The schedules of an address.
  abbrev pub schedules_of : {W : Type 0} → Claims W → EthereumAddress → List Schedule
  schedules_of s address = unwrap_or (get s.vesting address) []

  -- A schedule that starts at the enactment block has all of it locked there.
  locked_at-start :
      (lock per_block : ℕ) → locked_at p enactment_block (lock, per_block, enactment_block) ≡ lock
  unfolding locked_at
  locked_at-start lock per_block =
      let none_yet : enactment_block - enactment_block ≡ 0 = omega arith in
      rw none_yet (omega arith)

  module _ {Bank : Type 0} (externals : Externals Bank) where
    -- What is to be locked: 80 percent of the claim and the reward.
    abbrev pub desired_lock : EthereumAddress → ℕ → Claims (Betanet Bank) → ℕ
    desired_lock address reward s =
        wrapping_add u128_mod
          (p.times (principal_lock p default_option) (unwrap_or (get s.claims address) 0)) reward

    lock_lem :
        (s : Claims (Betanet Bank)) (address : EthereumAddress) (desired : ℕ)
        → compute_claims_vesting_lock p enactment_block s.vesting address desired
          ≡ desired - sum_locked (schedules_of s address)
    unfolding compute_claims_vesting_lock
    lock_lem s address desired = elim (Option-cases (get s.vesting address)) [
      | inl missing ↦ rw (compute_claims_vesting_lock, missing) (omega arith)
      | inr (schedules, stored) ↦
          rw (compute_claims_vesting_lock, stored) (subtract_locked_lem desired schedules)
    ]

    -- Locking a leftover claim tops its schedules up to the desired lock: at the enactment block they
    -- lock what they did before or the desired lock, whichever is more; and the schedules of other
    -- addresses stay as they are.
    pub lock_claim-TopsUp :
        (s : Claims (Betanet Bank)) (address : EthereumAddress) (reward : ℕ)
        → let t = lock_claim p enactment_block externals address reward s in
          let before = sum_locked (schedules_of s address) in
          (sum_locked (schedules_of t address) ≡ before + (desired_lock address reward s - before))
          × ((j : EthereumAddress) → j ≢ address → get t.vesting j ≡ get s.vesting j)
    unfolding lock_claim
    lock_claim-TopsUp s address reward =
        let lock =
          compute_claims_vesting_lock p enactment_block s.vesting address
            (desired_lock address reward s) in
        let lock_eq = lock_lem s address (desired_lock address reward s) in
        let added : Schedule = (lock, lock / vesting_period default_option, enactment_block) in
        elim (Bool-cases (lock == 0)) [
          | inl zero ↦
              let none_left : lock ≡ 0 = (nat_beq_iff lock 0).0 zero in
              rw zero (omega (arith, none_left, lock_eq), λ j ne. refl)
          | inr more ↦ rw more (
            ap (λ o. sum_locked (unwrap_or o []))
                  (get-insert_self s.vesting address (schedules_of s address ++ (added ∷ [])))
                ∙ sum_locked-append (schedules_of s address) (added ∷ [])
                ∙ omega
                    (arith, locked_at-start lock (lock / vesting_period default_option), lock_eq),
            λ j ne.
                get-insert s.vesting address j (schedules_of s address ++ (added ∷ []))
                ∙ ground (arith, list_beq_iff address j),
          )
        ]
