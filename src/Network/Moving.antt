-- ===== src/Network/Moving.antt =====
-- Who can move a claim in runtime/xxnetwork/src/lib.rs.
use xxchain.Common.{ℕ, ◌≡◌, ◌↔◌, ◌⊎◌, inl, inr, refl, true, Option, Bool-cases}
use xxchain.Frame.{Origin, is_root, ok}
use xxchain.Claims.Storage.{
  Claims, EthereumAddress, Config as ClaimsConfig, Externals as ClaimsExternals, RewardHandler,
}
use xxchain.Claims.Calls.{move_claim}
use xxchain.Network.Origins.{technical_committee, claims_config}
use xxchain.Network.Demand.{Motions, Carried}

module _ (motions : Motions) (host : ClaimsConfig) {W : Type 0} (externals : ClaimsExternals W)
    (handler : RewardHandler W) where
  open motions use {at_least}

  -- Moving a claim succeeds exactly for root and for a motion with at least two thirds of the technical
  -- committee in favour: it does not take all of it.
  pub move_claim-TwoThirds :
      (o : Origin) (old new : EthereumAddress) (preclaim : Option ℕ) (s : Claims W)
      → ((move_claim (claims_config at_least host) externals handler o old new preclaim s).0
          ≡ ok tt)
        ↔ ((is_root o ≡ true) ⊎ Carried motions technical_committee 2 3 o)
  unfolding move_claim
  move_claim-TwoThirds Origin.root old new preclaim s = (λ _. inl refl, λ _. refl)
  move_claim-TwoThirds o old new preclaim s =
      elim (Bool-cases (at_least technical_committee 2 3 o)) [
        | inl enough ↦ (
          λ _. inr ((motions.at_least_iff technical_committee 2 3 o).0 enough),
          λ _. rw enough refl,
        )
        | inr few ↦ (
          λ h. absurd (cc (rw few at h)),
          λ h. elim h [
            | inl root ↦ absurd (cc root)
            | inr carried ↦
                let enough = (motions.at_least_iff technical_committee 2 3 o).1 carried in
                absurd (cc (few, enough))
          ],
        )
      ]
