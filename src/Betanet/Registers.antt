-- ===== src/Betanet/Registers.antt =====
-- Claims with a reward in the runtime, where the handler of the claims pallet is that of
-- xx-betanet-rewards (runtime/xxnetwork/src/lib.rs).
use xxchain.Common.{
  ℕ, ◌≤◌, ◌≡◌, ◌≢◌, refl, ap, ◌∙◌, false, Option, none, some, List, [], ◌∷◌, arith, list_eq, nat_eq,
  if◌then◌else◌, leb, ◌-◌, Bool-cases, inl, inr,
}
use xxchain.Frame.{ok}
use xxchain.Frame.StorageMap.{get, get-insert}
use xxchain.Claims.Storage.{Claims, EthereumAddress, Schedule, Externals}
use xxchain.Claims.Process.{process_claim, add_schedules, add_optional, call_handler}
use xxchain.Claims.Paid.{has_both, process_claim_settles, settle_lem}
use xxchain.Betanet.Options.{UserInfo, default_option}
use xxchain.Betanet.Pallet.{Betanet, add_claimed, handler}

module _ {Bank : Type 0} (externals : Externals Bank) where
  -- The currency and the vesting pallet beside the storage of the rewards pallet.
  abbrev pub beside : Externals (Betanet Bank)
  beside = record {
    deposit_creating =
        λ who value w. record w { bank = externals.deposit_creating who value w.bank };
    vesting_balance = λ w who. externals.vesting_balance w.bank who;
    add_vesting_schedule = λ who locked per_block start w.
        let (r, b) = externals.add_vesting_schedule who locked per_block start w.bank in
        (r, record w { bank = b });
  }

  module _ (enactment_block : ℕ) where
    -- The accounts and the block number.
    abbrev SameProgram : Betanet Bank → Betanet Bank → Type 0
    SameProgram w v = (v.accounts ≡ w.accounts) × (v.block_number ≡ w.block_number)

    add_schedules-SameProgram :
        (dest : ℕ) (vs : List Schedule) (w : Betanet Bank)
        → SameProgram w (add_schedules beside (handler enactment_block) dest vs w)
    unfolding add_schedules
    add_schedules-SameProgram dest [] w = (refl, refl)
    add_schedules-SameProgram dest (v ∷ vs) w =
        add_schedules-SameProgram dest vs (beside.add_vesting_schedule dest v.0 v.1 v.2 w).1

    add_optional-SameProgram :
        (dest : ℕ) (o : Option (List Schedule)) (w : Betanet Bank)
        → SameProgram w (add_optional beside (handler enactment_block) dest o w)
    add_optional-SameProgram dest none w = (refl, refl)
    add_optional-SameProgram dest (some vs) w = add_schedules-SameProgram dest vs w

    -- What the program knows of an account after a claim in a block, with the reward on record.
    abbrev pub registered : ℕ → ℕ → Option ℕ → Option UserInfo → Option UserInfo
    registered block due none known = known
    registered block due (some reward) known =
        if leb enactment_block block
        then known
        else some (record { principal = due; reward = reward; option = default_option })

    module _ (dest due : ℕ) (w v : Betanet Bank) (same : SameProgram w v) where
      abbrev called : Option ℕ → Betanet Bank
      called o = call_handler beside (handler enactment_block) dest due o v

      called_dest :
          (o : Option ℕ)
          → get (called o).accounts dest ≡ registered w.block_number due o (get w.accounts dest)
      unfolding add_claimed
      called_dest none = ap (λ m. get m dest) same.0
      called_dest (some reward) =
          rw same.1 (elim (Bool-cases (leb enactment_block w.block_number)) [
            | inl late ↦ rw late (ap (λ m. get m dest) same.0)
            | inr early ↦ rw early (get-insert v.accounts dest dest _ ∙ ground arith)
          ])

      called_other :
          (o : Option ℕ) (j : ℕ) → j ≢ dest → get (called o).accounts j ≡ get w.accounts j
      unfolding add_claimed
      called_other none j ne = ap (λ m. get m j) same.0
      called_other (some reward) j ne =
          rw same.1 (elim (Bool-cases (leb enactment_block w.block_number)) [
            | inl late ↦ rw late (ap (λ m. get m j) same.0)
            | inr early ↦ rw early (get-insert v.accounts dest j _ ∙ rw (← same.0) (ground arith))
          ])

    -- A claim that is paid puts the account into the program, with the claim as principal, the reward
    -- that was on record and the option of six months, if there was a reward and the enactment block
    -- has not come; in all other cases the account keeps what the program knew of it. Other accounts
    -- are not touched.
    pub process_claim-Registers :
        (s : Claims (Betanet Bank)) (signer : EthereumAddress) (dest due : ℕ)
        → get s.claims signer ≡ some due
        → due ≤ s.total
        → has_both beside (handler enactment_block) s signer dest ≡ false
        → let (r, t) = process_claim beside (handler enactment_block) signer dest s in
          (r ≡ ok tt)
          × (get t.world.accounts dest
              ≡ registered s.world.block_number due
                  (get s.rewards signer)
                  (get s.world.accounts dest))
          × ((j : ℕ) → j ≢ dest → get t.world.accounts j ≡ get s.world.accounts j)
    process_claim-Registers s signer dest due stored covered free =
        let same =
          add_optional-SameProgram dest (get s.vesting signer)
            (beside.deposit_creating dest due s.world) in
        rw
          (
            process_claim_settles beside (handler enactment_block) s signer dest due stored covered
                free,
            settle_lem beside (handler enactment_block) s signer dest due (s.total - due),
          )
          (
            refl,
            called_dest dest due s.world _ same (get s.rewards signer),
            called_other dest due s.world _ same (get s.rewards signer),
          )
