-- ===== src/Betanet/Pallet.antt =====
-- The storage and the calls of xx-betanet-rewards/src/lib.rs, and the handler that the claims pallet
-- calls.
use xxchain.Common.{ℕ, Bool, true, none, some, List, ◌∷◌, ltb, leb, nat_eq, if◌then◌else◌}
use xxchain.Frame.{
  ok, betanet_rewards, no_rewards, enactment_block_has_passed, DispatchResult, ensure, modify,
  ◌>>=◌, ◌>>◌, Origin, ensure_signed, ensure_root,
}
use xxchain.Frame.StorageMap.{StorageMap, get, insert, contains_key}
use xxchain.Claims.Storage.{RewardHandler}
use xxchain.Betanet.Options.{RewardOption, default_option, UserInfo}

pub data Event : Type 0 where
  option_selected : ℕ → RewardOption → Event
  program_approved program_enacted : Event

-- The pallet's storage, the block number, the events, newest first, and the balances.
pub record Betanet (Bank : Type 0) : Type 0 where
  pub accounts : StorageMap ℕ UserInfo
  pub approved : Bool
  pub block_number : ℕ
  pub events : List Event
  pub bank : Bank

-- `mutate` of the option of an account.
unfoldable pub set_option : StorageMap ℕ UserInfo → ℕ → RewardOption → StorageMap ℕ UserInfo
set_option m who option = elim (get m who) [
  | none ↦ insert m who (record { principal = 0; reward = 0; option = option })
  | some info ↦ insert m who (record info { option = option })
]

module _ (enactment_block : ℕ) {Bank : Type 0} where
  abbrev pub deposit_event : Event → DispatchResult (Betanet Bank)
  deposit_event e s = (ok tt, record s { events = e ∷ s.events })

  unfoldable pub select_option : Origin → RewardOption → DispatchResult (Betanet Bank)
  select_option origin option s =
      (do
        who ← ensure_signed origin
        ensure (contains_key s.accounts who) (betanet_rewards no_rewards)
        ensure (ltb s.block_number enactment_block) (betanet_rewards enactment_block_has_passed)
        modify (λ s. record s { accounts = set_option s.accounts who option })
        deposit_event (option_selected who option))
        s

  unfoldable pub approve : Origin → DispatchResult (Betanet Bank)
  approve origin s =
      (do
        ensure_root origin
        ensure (ltb s.block_number enactment_block) (betanet_rewards enactment_block_has_passed)
        modify (λ s. record s { approved = true })
        deposit_event program_approved)
        s

  -- `RewardHandler::add_claimed`
  unfoldable pub add_claimed : ℕ → ℕ → ℕ → Betanet Bank → Betanet Bank
  add_claimed dest claim reward s = if leb enactment_block s.block_number then s else record s {
    accounts =
        insert s.accounts dest
          (record { principal = claim; reward = reward; option = default_option });
  }

  abbrev pub handler : RewardHandler (Betanet Bank)
  handler = record { add_claimed = add_claimed }
