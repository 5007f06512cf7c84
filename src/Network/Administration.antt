-- ===== src/Network/Administration.antt =====
-- The administration of the pallets in runtime/xxnetwork/src/lib.rs: no call without who it asks for.
use xxchain.Common.{ℕ, ◌≡◌, refl, false, List, arith}
use xxchain.Frame.{Origin, Refuses}
use xxchain.Frame.Currency.{Currency, Vesting}
use xxchain.Frame.Perbill.{Perbill}
use xxchain.Chainbridge.Storage.{Dispatch, Runtime}
use xxchain.Chainbridge.Call
use xxchain.Chainbridge.Authority as BridgeAuthority
use xxchain.Swap.Pallet.{Swap}
use xxchain.Swap.Authority as SwapAuthority
use xxchain.Cmix.Pallet.{Cmix, Staking}
use xxchain.Cmix.Authority as CmixAuthority
use xxchain.Custody.Pallet.{Custody, Externals as CustodyExternals}
use xxchain.Custody.History as CustodyHistory
use xxchain.Custody.Authority as CustodyAuthority
use xxchain.Custody.Guards as CustodyGuards
use xxchain.Economics.Pallet.{Economics}
use xxchain.Economics.Authority as EconomicsAuthority
use xxchain.Public.Pallet.{Public}
use xxchain.Public.Authority as PublicAuthority
use xxchain.Network.Origins.{
  bridge_config, swap_config, cmix_config, custody_config, economics_config, public_config,
}
use xxchain.Network.Demand.{
  PalletCall, to_bridge, to_swap, to_cmix, to_custody, to_economics, to_public, demand, Motions,
  Suffices, two_thirds_denied, unanimity_denied, council_denied,
}

-- What the pallets call, and the accounts of the runtime.
pub record Outside (W : Type 0) : Type 0 where
  pub dispatch : Dispatch W
  pub currency : Currency W
  pub vesting : Vesting W
  pub staking : Staking W
  pub perbill : Perbill
  pub custody : CustodyExternals W
  pub bridge_account : ℕ
  pub testnet : ℕ
  pub sale : ℕ
  pub rewards : ℕ
  pub era_duration : ℕ
  pub token : List ℕ

module _ (motions : Motions) where
  open motions use {at_least}

  module _ {W : Type 0} (outside : Outside W) where
    open outside use {
      dispatch, currency, vesting, staking, perbill, custody, bridge_account, testnet, sale,
      rewards, era_duration, token,
    }

    -- The call fails and changes nothing, from any state of its pallet.
    abbrev pub Refused : PalletCall → Origin → Type 0
    Refused (to_bridge c) o =
        (s : Runtime W) → Refuses (Call.run (bridge_config at_least bridge_account) dispatch o c) s
    Refused (to_swap c) o =
        (s : Swap W)
        → Refuses (SwapAuthority.run (swap_config at_least bridge_account token) currency o c) s
    Refused (to_cmix c) o =
        (s : Cmix W) → Refuses (CmixAuthority.run (cmix_config at_least) staking o c) s
    Refused (to_custody c) o =
        (s : Custody W)
        → Refuses (CustodyHistory.run (custody_config at_least) perbill custody o c) s
    Refused (to_economics c) o =
        (s : Economics W)
        → Refuses
            (EconomicsAuthority.run
              (economics_config at_least rewards era_duration (public_config at_least testnet sale))
              currency o c)
            s
    Refused (to_public c) o =
        (s : Public W)
        → Refuses (PublicAuthority.run (public_config at_least testnet sale) currency vesting o c) s

    bridge_denied :
        (c : Call.Call) (o : Origin) (s : Runtime W)
        → ¬ (Suffices motions (demand (to_bridge c)) o)
        → BridgeAuthority.permitted (bridge_config at_least bridge_account) s.bridge o c ≡ false
    bridge_denied (Call.acknowledge_proposal nonce src_id r_id call) o s h = absurd (h tt)
    bridge_denied (Call.reject_proposal nonce src_id r_id call) o s h = absurd (h tt)
    bridge_denied (Call.eval_vote_state nonce src_id prop) o s h = absurd (h tt)
    bridge_denied _ o s h = two_thirds_denied motions o h

    swap_denied :
        (c : SwapAuthority.Call) (o : Origin) (s : Swap W)
        → ¬ (Suffices motions (demand (to_swap c)) o)
        → SwapAuthority.permitted (swap_config at_least bridge_account token) currency s o c ≡ false
    swap_denied (SwapAuthority.set_swap_fee fee) o s h = two_thirds_denied motions o h
    swap_denied (SwapAuthority.set_fee_destination dest) o s h = two_thirds_denied motions o h
    swap_denied _ o s h = absurd (h tt)

    cmix_denied :
        (c : CmixAuthority.Call) (o : Origin) (s : Cmix W)
        → ¬ (Suffices motions (demand (to_cmix c)) o)
        → CmixAuthority.permitted (cmix_config at_least) staking s o c ≡ false
    cmix_denied (CmixAuthority.set_cmix_hashes hashes) o s h =
        rw (two_thirds_denied motions o h) refl
    cmix_denied (CmixAuthority.set_scheduling_account who) o s h = two_thirds_denied motions o h
    cmix_denied (CmixAuthority.set_next_cmix_variables v) o s h = council_denied motions o h
    cmix_denied (CmixAuthority.set_admin_permission n) o s h = ground arith
    cmix_denied _ o s h = absurd (h tt)

    custody_denied :
        (c : CustodyHistory.Call) (o : Origin) (s : Custody W)
        → ¬ (Suffices motions (demand (to_custody c)) o)
        → CustodyGuards.permitted (custody_config at_least) perbill custody s o c ≡ false
    custody_denied (CustodyHistory.add_custodian who) o s h = unanimity_denied motions o h
    custody_denied (CustodyHistory.remove_custodian who) o s h = unanimity_denied motions o h
    custody_denied (CustodyHistory.replace_team_member who new) o s h =
        rw (unanimity_denied motions o h) refl
    custody_denied _ o s h = absurd (h tt)

    public_denied :
        (c : PublicAuthority.Call) (o : Origin) (s : Public W)
        → ¬ (Suffices motions (demand (to_public c)) o)
        → PublicAuthority.permitted (public_config at_least testnet sale) currency vesting s o c
          ≡ false
    public_denied (PublicAuthority.set_testnet_manager_account who) o s h =
        unanimity_denied motions o h
    public_denied (PublicAuthority.set_sale_manager_account who) o s h =
        unanimity_denied motions o h
    public_denied _ o s h = absurd (h tt)

    -- In the runtime, an administration call fails and changes nothing unless who it asks for stands
    -- behind it: root, or a motion with at least two thirds of the technical committee for the bridge,
    -- the swap and the software hashes and scheduling account of cmix, with two thirds of the council
    -- for the cmix variables, with all of the technical committee for the economics, the managers of
    -- xx-public and the custodians and members of the custody; and root alone for the admin
    -- permission.
    pub administration-Refused :
        (c : PalletCall) (o : Origin) → ¬ (Suffices motions (demand c) o) → Refused c o
    administration-Refused (to_bridge c) o h = λ s.
        BridgeAuthority.run-Refuses (bridge_config at_least bridge_account) dispatch s o c
          (bridge_denied c o s h)
    administration-Refused (to_swap c) o h = λ s.
        SwapAuthority.swap-Refuses (swap_config at_least bridge_account token) currency s o c
          (swap_denied c o s h)
    administration-Refused (to_cmix c) o h =
        λ s. CmixAuthority.cmix-Refuses (cmix_config at_least) staking s o c (cmix_denied c o s h)
    administration-Refused (to_custody c) o h = λ s.
        CustodyAuthority.custody-Refuses (custody_config at_least) perbill custody s o c
          (custody_denied c o s h)
    administration-Refused (to_economics c) o h = λ s.
        EconomicsAuthority.economics-Refuses
          (economics_config at_least rewards era_duration (public_config at_least testnet sale))
          currency s o c (unanimity_denied motions o h)
    administration-Refused (to_public c) o h = λ s.
        PublicAuthority.public-Refuses (public_config at_least testnet sale) currency vesting s o c
          (public_denied c o s h)
