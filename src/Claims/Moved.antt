-- ===== src/Claims/Moved.antt =====
-- move_claim of claims/src/lib.rs: what moves with a claim, and what does not.
use xxchain.Common.{ℕ, ◌≡◌, ◌≢◌, Option, none, some, list_eq, nat_eq}
use xxchain.Frame.StorageMap.{StorageMap, get}
use xxchain.Claims.Storage.{Config, Claims, EthereumAddress, Externals, RewardHandler}
use xxchain.Claims.Calls.{move_entry, move_preclaim}

-- What the new address has of a map after the old one's entry moved to it.
abbrev pub moved : {V : Type 0} → Option V → Option V → Option V
moved none own = own
moved (some v) own = some v

module _ (config : Config) {W : Type 0} (externals : Externals W) (handler : RewardHandler W) where
  -- The claim, its vesting schedules and its statement are at the new address; the rewards are where
  -- they were.
  pub record Moved (s t : Claims W) (old new : EthereumAddress) : Type 0 where
    pub claim : get t.claims new ≡ moved (get s.claims old) (get s.claims new)
    pub vesting : get t.vesting new ≡ moved (get s.vesting old) (get s.vesting new)
    pub signing : get t.signing new ≡ moved (get s.signing old) (get s.signing new)
    pub no_claim : get t.claims old ≡ none
    pub no_vesting : get t.vesting old ≡ none
    pub no_signing : get t.signing old ≡ none
    pub other_claims : (j : EthereumAddress) → j ≢ old → j ≢ new → get t.claims j ≡ get s.claims j
    pub rewards : t.rewards ≡ s.rewards
    pub total : t.total ≡ s.total
    pub world : t.world ≡ s.world
    pub events : t.events ≡ s.events

  move_all : EthereumAddress → EthereumAddress → Option ℕ → Claims W → Claims W
  move_all old new preclaim s = record s {
    claims = move_entry s.claims old new;
    vesting = move_entry s.vesting old new;
    signing = move_entry s.signing old new;
    preclaims = move_preclaim s.preclaims old new preclaim;
  }
