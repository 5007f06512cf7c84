-- ===== src/Network/Examples/Powers.antt =====
-- Motions of the collectives of runtime/xxnetwork/src/lib.rs.
use xxchain.Common.{
  ℕ, ◌+◌, ◌*◌, ◌≤◌, ◌≡◌, ◌↔◌, ◌⊎◌, inl, inr, refl, Bool, true, false, Option, none, some, [], ◌∷◌,
  arith, leb,
}
use xxchain.Frame.{Origin, is_root, ok}
use xxchain.Frame.Perbill.{Perbill}
use xxchain.Claims.Storage.{Config as ClaimsConfig, Externals as ClaimsExternals, RewardHandler}
use xxchain.Claims.Calls.{genesis_build, move_claim}
use xxchain.Custody.Idle.{idle}
use xxchain.Economics.Authority
use xxchain.Network.Origins.{Collective, council, technical_committee, claims_config}
use xxchain.Network.Demand.{Motions, Carried, Suffices, demand, to_economics}
use xxchain.Network.Administration.{Outside, Refused, administration-Refused}
use xxchain.Network.Moving.{move_claim-TwoThirds}

-- Custom origins are motions of the technical committee, of three members.
abbrev test_motion : Origin → Option (Collective × (ℕ × ℕ))
test_motion (Origin.custom ayes) = some (technical_committee, (ayes, 3))
test_motion _ = none

abbrev carries : Collective → ℕ → ℕ → Origin → Bool
carries technical_committee n d (Origin.custom ayes) = leb (n * 3) (ayes * d)
carries c n d o = false

carries_iff :
    (c : Collective) (n d : ℕ) (o : Origin)
    → (carries c n d o ≡ true) ↔ (
        (ayes : ℕ) × (total : ℕ) × (test_motion o ≡ some (c, (ayes, total)))
        × (n * total ≤ ayes * d))
carries_iff technical_committee n d (Origin.custom k) =
    (λ h. (k, 3, refl, ground arith), λ (a, t, e, b). ground arith)
carries_iff council n d (Origin.custom k) = (λ h. absurd (cc h), λ (a, t, e, b). absurd (cc e))
carries_iff c n d o = (λ h. absurd (cc h), λ (a, t, e, b). absurd (cc e))

abbrev test_motions : Motions
test_motions = record { motion = test_motion; at_least = carries; at_least_iff = carries_iff }

abbrev nearest : Perbill
nearest = record {
  from_rational = λ a b. 0;
  times = λ r x. 0;
  times_ratio = λ r x. 0;
  saturating_add = λ a b. a;
  saturating_sub = λ a b. a;
  compute_inflation = λ a b c. 0;
}

-- A world in which nothing moves.
abbrev test_outside : Outside ℕ
test_outside = record {
  dispatch = λ call o rt. (ok tt, rt);
  currency = record {
    existential_deposit = 1;
    free_balance = λ w a. 7;
    transfer = λ source dest value w. (ok tt, w);
    make_free_balance_be = λ who value w. w;
  };
  vesting = record { add_vesting_schedule = λ who locked per_block start w. (ok tt, w) };
  staking = record { reward_by_ids = λ l w. w; deduct_by_ids = λ l w. w };
  perbill = nearest;
  custody = idle;
  bridge_account = 1;
  testnet = 2;
  sale = 3;
  rewards = 4;
  era_duration = 14400;
  token = [];
}

too_few : ¬ (
    Suffices test_motions
      (demand (to_economics (Authority.set_liquidity_rewards_balance 5)))
      (Origin.custom 2))
too_few (inl root) = absurd (cc root)
too_few (inr carried) =
    absurd (cc ((carries_iff technical_committee 1 1 (Origin.custom 2)).1 carried))

-- Two of three members do not administer the economics.
administration-Refused_example :
    Refused test_motions test_outside
      (to_economics (Authority.set_liquidity_rewards_balance 5))
      (Origin.custom 2)
administration-Refused_example =
    administration-Refused test_motions test_outside
      (to_economics (Authority.set_liquidity_rewards_balance 5)) (Origin.custom 2) too_few

abbrev host : ClaimsConfig
host = record {
  prefix = [];
  move_claim_origin = λ o. false;
  encode_account = λ a. a ∷ [];
  keccak_256 = λ bytes. bytes;
  secp256k1_ecdsa_recover = λ signature message. some signature;
}

abbrev test_externals : ClaimsExternals ℕ
test_externals = record {
  deposit_creating = λ who value w. w + value;
  vesting_balance = λ w who. none;
  add_vesting_schedule = λ who locked per_block start w. (ok tt, w);
}

abbrev test_handler : RewardHandler ℕ
test_handler = record { add_claimed = λ dest due reward w. w }

-- They can move a claim.
move_claim-TwoThirds_example :
    ((move_claim
        (claims_config carries host)
        test_externals
        test_handler
        (Origin.custom 2)
        (1 ∷ [])
        (2 ∷ [])
        none
        (genesis_build (record { claims = []; vesting = [] }) 0)).0
      ≡ ok tt)
    ↔ ((is_root (Origin.custom 2) ≡ true)
        ⊎ Carried test_motions technical_committee 2 3 (Origin.custom 2))
move_claim-TwoThirds_example =
    move_claim-TwoThirds test_motions host test_externals test_handler (Origin.custom 2) (1 ∷ [])
      (2 ∷ []) none (genesis_build (record { claims = []; vesting = [] }) 0)
