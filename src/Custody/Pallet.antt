-- ===== src/Custody/Pallet.antt =====
-- The storage of xx-team-custody/src/lib.rs, and what the pallet calls of others.
use xxchain.Common.{ℕ, Bool, List, ◌∷◌, nat_eq}
use xxchain.Frame.{ok, Exec, DispatchResult, within, Origin}
use xxchain.Frame.StorageMap.{StorageMap}

pub record CustodyInfo : Type 0 where
  pub allocation : ℕ
  pub vested : ℕ
  pub custody : ℕ
  pub reserve : ℕ

pub data Event : Type 0 where
  payout_from_custody payout_from_reserve : (who amount : ℕ) → Event
  custody_done custodian_added custodian_removed : ℕ → Event
  team_member_updated : (who new : ℕ) → Event

-- `trait Config`, as far as it is data.
pub record Config : Type 0 where
  pub payout_frequency : ℕ
  pub custody_duration : ℕ
  pub governance_custody_duration : ℕ
  pub admin_origin : Origin → Bool

-- What the pallet calls of the currency, the staking and the proxy pallet, on their own state.
pub record Externals (W : Type 0) : Type 0 where
  -- `Currency::transfer(source, dest, value, AllowDeath)`
  pub transfer : ℕ → ℕ → ℕ → DispatchResult W
  -- `Inspect::reducible_balance(who, keep_alive)`
  pub reducible_balance : W → ℕ → Bool → ℕ
  pub deposit_creating : ℕ → ℕ → W → W
  pub is_bonded : W → ℕ → Bool
  pub force_unstake : ℕ → DispatchResult W
  pub bond : ℕ → ℕ → ℕ → DispatchResult W
  pub bond_extra : ℕ → ℕ → DispatchResult W
  pub set_controller : ℕ → ℕ → DispatchResult W
  -- `Proxies::take`, which gives the deposit, and `unreserve` of it
  pub take_proxies : ℕ → W → ℕ × W
  pub unreserve : ℕ → ℕ → W → W
  pub add_proxy_delegate : ℕ → ℕ → DispatchResult W
  -- `pure_account(who, proxy_type, index, None)`
  pub pure_account : ℕ → ℕ → ℕ

-- The pallet's storage, the block number, the events, newest first, and the state of the others.
pub record Custody (W : Type 0) : Type 0 where
  pub team_accounts : StorageMap ℕ CustodyInfo
  pub custody_accounts : StorageMap ℕ (Unit {0})
  pub custodians : StorageMap ℕ (Unit {0})
  pub total_custody : ℕ
  pub block_number : ℕ
  pub events : List Event
  pub world : W

module _ {W : Type 0} where
  abbrev pub on_world : {A : Type 0} → Exec W A → Exec (Custody W) A
  on_world = within (λ s. s.world) (λ s w. record s { world = w })

  abbrev pub deposit_event : Event → DispatchResult (Custody W)
  deposit_event e s = (ok tt, record s { events = e ∷ s.events })
