-- ===== src/Network/Origins.antt =====
-- Who administers what in runtime/xxnetwork/src/lib.rs: the origins and the durations that the runtime
-- gives to the pallets.
use xxchain.Common.{ℕ, ◌*◌, Bool, ◌||◌, List, codes}
use xxchain.Frame.{Origin, is_root}
use xxchain.Chainbridge.Storage.{Config as BridgeConfig}
use xxchain.Swap.Pallet.{Config as SwapConfig}
use xxchain.Cmix.Pallet.{Config as CmixConfig}
use xxchain.Custody.Pallet.{Config as CustodyConfig}
use xxchain.Economics.Pallet.{Config as EconomicsConfig}
use xxchain.Public.Pallet.{Config as PublicConfig, accounts}
use xxchain.Claims.Storage.{Config as ClaimsConfig}
use xxchain.Network.Constants.{hours, weeks, years}

pub data Collective : Type 0 where
  council technical_committee : Collective

-- `pallet_collective::EnsureProportionAtLeast<_, C, N, D>` is a test of an origin.
module _ (at_least : Collective → ℕ → ℕ → Origin → Bool) where
  abbrev pub technical_unanimity : Origin → Bool
  technical_unanimity o = at_least technical_committee 1 1 o || is_root o

  abbrev pub two_thirds_council : Origin → Bool
  two_thirds_council o = at_least council 2 3 o || is_root o

  abbrev pub two_thirds_technical : Origin → Bool
  two_thirds_technical o = is_root o || at_least technical_committee 2 3 o

  -- The accounts are what the `PalletId`s convert into.
  abbrev pub bridge_config : ℕ → BridgeConfig
  bridge_config account = record {
    chain_id = 0;
    proposal_lifetime = 1 * hours;
    account_id = account;
    admin_origin = two_thirds_technical;
  }

  abbrev pub swap_config : ℕ → List ℕ → SwapConfig
  swap_config account token = record {
    bridge = bridge_config account;
    native_token_id = token;
    admin_origin = two_thirds_technical;
  }

  abbrev pub cmix_config : CmixConfig
  cmix_config = record {
    cmix_variables_origin = two_thirds_council;
    admin_origin = two_thirds_technical;
  }

  abbrev pub custody_config : CustodyConfig
  custody_config = record {
    payout_frequency = 1 * weeks;
    custody_duration = 3 * years;
    governance_custody_duration = 1 * years;
    admin_origin = technical_unanimity;
  }

  abbrev pub public_config : ℕ → ℕ → PublicConfig
  public_config testnet sale = record {
    testnet_account_id = testnet;
    sale_account_id = sale;
    admin_origin = technical_unanimity;
  }

  abbrev pub economics_config : ℕ → ℕ → PublicConfig → EconomicsConfig
  economics_config rewards era_duration public = record {
    rewards_account_id = rewards;
    public_accounts = accounts public;
    era_duration = era_duration;
    admin_origin = technical_unanimity;
  }

  -- The hash, the recovery of keys and the codec of accounts are those of `host`.
  abbrev pub claims_config : ClaimsConfig → ClaimsConfig
  claims_config host = record host {
    prefix = codes "Pay xx coins to the xx network account:";
    move_claim_origin = two_thirds_technical;
  }
