-- ===== src/Network/Demand.antt =====
-- What the administration calls of the pallets ask for in runtime/xxnetwork/src/lib.rs: motions of its
-- collectives, or root.
use xxchain.Common.{
  ℕ, ◌*◌, ◌≤◌, ◌≡◌, ◌↔◌, ◌⊎◌, inl, inr, refl, Bool, true, false, ◌||◌, Option, some, Bool-cases,
}
use xxchain.Frame.{Origin, is_root}
use xxchain.Chainbridge.Call
use xxchain.Swap.Authority as SwapAuthority
use xxchain.Cmix.Authority as CmixAuthority
use xxchain.Custody.History as CustodyHistory
use xxchain.Economics.Authority as EconomicsAuthority
use xxchain.Public.Authority as PublicAuthority
use xxchain.Network.Origins.{
  Collective, council, technical_committee, two_thirds_technical, two_thirds_council,
  technical_unanimity,
}

-- A call of one of the pallets.
pub data PalletCall : Type 0 where
  to_bridge : Call.Call → PalletCall
  to_swap : SwapAuthority.Call → PalletCall
  to_cmix : CmixAuthority.Call → PalletCall
  to_custody : CustodyHistory.Call → PalletCall
  to_economics : EconomicsAuthority.Call → PalletCall
  to_public : PublicAuthority.Call → PalletCall

-- Who has to stand behind a call; `anyone` is a call that asks for something else.
pub data Demand : Type 0 where
  root_only two_thirds_of_technical all_of_technical two_thirds_of_council anyone : Demand

abbrev pub demand : PalletCall → Demand
demand (to_bridge (Call.acknowledge_proposal nonce src_id r_id call)) = anyone
demand (to_bridge (Call.reject_proposal nonce src_id r_id call)) = anyone
demand (to_bridge (Call.eval_vote_state nonce src_id prop)) = anyone
demand (to_bridge c) = two_thirds_of_technical
demand (to_swap (SwapAuthority.set_swap_fee fee)) = two_thirds_of_technical
demand (to_swap (SwapAuthority.set_fee_destination dest)) = two_thirds_of_technical
demand (to_swap c) = anyone
demand (to_cmix (CmixAuthority.set_cmix_hashes hashes)) = two_thirds_of_technical
demand (to_cmix (CmixAuthority.set_scheduling_account who)) = two_thirds_of_technical
demand (to_cmix (CmixAuthority.set_next_cmix_variables v)) = two_thirds_of_council
demand (to_cmix (CmixAuthority.set_admin_permission n)) = root_only
demand (to_cmix c) = anyone
demand (to_custody (CustodyHistory.add_custodian who)) = all_of_technical
demand (to_custody (CustodyHistory.remove_custodian who)) = all_of_technical
demand (to_custody (CustodyHistory.replace_team_member who new)) = all_of_technical
demand (to_custody c) = anyone
demand (to_economics c) = all_of_technical
demand (to_public (PublicAuthority.set_testnet_manager_account who)) = all_of_technical
demand (to_public (PublicAuthority.set_sale_manager_account who)) = all_of_technical
demand (to_public c) = anyone

-- The motions of the collectives among the origins, as a collective with the votes in favour and its
-- size, and the test of a proportion on them.
pub record Motions : Type 0 where
  pub motion : Origin → Option (Collective × (ℕ × ℕ))
  pub at_least : Collective → ℕ → ℕ → Origin → Bool
  pub at_least_iff :
      (c : Collective) (n d : ℕ) (o : Origin)
      → (at_least c n d o ≡ true)
        ↔ ((yes : ℕ) × (total : ℕ) × (motion o ≡ some (c, (yes, total))) × (n * total ≤ yes * d))

module _ (motions : Motions) where
  open motions use {motion, at_least}

  -- A motion of a collective in which at least `n` of `d` parts of it are in favour.
  abbrev pub Carried : Collective → ℕ → ℕ → Origin → Type 0
  Carried c n d o =
      (yes : ℕ) × (total : ℕ) × (motion o ≡ some (c, (yes, total))) × (n * total ≤ yes * d)

  abbrev pub Suffices : Demand → Origin → Type 0
  Suffices root_only o = is_root o ≡ true
  Suffices two_thirds_of_technical o = (is_root o ≡ true) ⊎ Carried technical_committee 2 3 o
  Suffices all_of_technical o = (is_root o ≡ true) ⊎ Carried technical_committee 1 1 o
  Suffices two_thirds_of_council o = (is_root o ≡ true) ⊎ Carried council 2 3 o
  Suffices anyone o = Unit

  unmet :
      (c : Collective) (n d : ℕ) (o : Origin)
      → ¬ ((is_root o ≡ true) ⊎ Carried c n d o)
      → (at_least c n d o ≡ false) × (is_root o ≡ false)
  unmet c n d o h = elim (Bool-cases (is_root o)) [
    | inl root ↦ absurd (h (inl root))
    | inr other ↦ elim (Bool-cases (at_least c n d o)) [
      | inl enough ↦ absurd (h (inr ((motions.at_least_iff c n d o).0 enough)))
      | inr few ↦ (few, other)
    ]
  ]

  pub two_thirds_denied :
      (o : Origin)
      → ¬ (Suffices two_thirds_of_technical o)
      → (two_thirds_technical at_least o || is_root o) ≡ false
  two_thirds_denied o h =
      let (few, other) = unmet technical_committee 2 3 o h in rw (few, other) refl

  pub unanimity_denied :
      (o : Origin)
      → ¬ (Suffices all_of_technical o)
      → (technical_unanimity at_least o || is_root o) ≡ false
  unanimity_denied o h =
      let (few, other) = unmet technical_committee 1 1 o h in rw (few, other) refl

  pub council_denied :
      (o : Origin)
      → ¬ (Suffices two_thirds_of_council o)
      → (two_thirds_council at_least o || is_root o) ≡ false
  council_denied o h = let (few, other) = unmet council 2 3 o h in rw (few, other) refl
