-- ===== src/Claims/Storage.antt =====
-- The types and the storage of claims/src/lib.rs, and what the pallet calls of others.
use xxchain.Common.{ℕ, Bool, Option, List, ◌∷◌, codes, list_eq, nat_eq}
use xxchain.Frame.{ok, Exec, DispatchResult, Origin, within}
use xxchain.Frame.StorageMap.{StorageMap}

-- `EthereumAddress(pub [u8; 20])`
abbrev pub EthereumAddress : Type 0
EthereumAddress = List ℕ

-- `EcdsaSignature(pub [u8; 65])`
abbrev pub EcdsaSignature : Type 0
EcdsaSignature = List ℕ

pub data StatementKind : Type 0 where
  regular saft : StatementKind

-- `StatementKind::to_text`
unfoldable pub to_text : StatementKind → List ℕ
to_text regular =
    codes
      "I hereby agree to the terms of the statement whose SHA-256 hash is 0x3895c0d2a25a727b8eded6dcca37b2cb11bdfc94ae999da369d7bdc9eeca603c. (This may be found at the URL: https://docs.xx.network/xxNetworkDistributionContractV2.pdf)"
to_text saft = codes "xx network doesn't have a SAFT statement"

-- A vesting schedule: locked, per block, starting block.
abbrev pub Schedule : Type 0
Schedule = ℕ × ℕ × ℕ

-- Someone claimed some coins: who, address, amount, reward.
pub data Event : Type 0 where
  claimed : (who : ℕ) (address : EthereumAddress) (amount reward : ℕ) → Event

-- `trait RewardHandler`, on the state of the pallet that implements it.
pub record RewardHandler (W : Type 0) : Type 0 where
  pub add_claimed : ℕ → ℕ → ℕ → W → W

-- What the pallet calls of the currency and the vesting pallet.
pub record Externals (W : Type 0) : Type 0 where
  pub deposit_creating : ℕ → ℕ → W → W
  pub vesting_balance : W → ℕ → Option ℕ
  -- `add_vesting_schedule(who, locked, per_block, starting_block)`
  pub add_vesting_schedule : ℕ → ℕ → ℕ → ℕ → DispatchResult W

-- `trait Config`, as far as it is data, with the functions of the host and of the codec.
pub record Config : Type 0 where
  pub prefix : List ℕ
  pub move_claim_origin : Origin → Bool
  -- `AccountId::using_encoded`
  pub encode_account : ℕ → List ℕ
  pub keccak_256 : List ℕ → List ℕ
  pub secp256k1_ecdsa_recover : EcdsaSignature → List ℕ → Option (List ℕ)

-- The pallet's storage, the events, newest first, and the state of the others.
pub record Claims (W : Type 0) : Type 0 where
  pub claims : StorageMap EthereumAddress ℕ
  pub total : ℕ
  pub vesting : StorageMap EthereumAddress (List Schedule)
  pub signing : StorageMap EthereumAddress StatementKind
  pub preclaims : StorageMap ℕ EthereumAddress
  pub rewards : StorageMap EthereumAddress ℕ
  pub events : List Event
  pub world : W

module _ {W : Type 0} where
  abbrev pub on_world : {A : Type 0} → Exec W A → Exec (Claims W) A
  on_world = within (λ s. s.world) (λ s w. record s { world = w })

  abbrev pub deposit_event : Event → DispatchResult (Claims W)
  deposit_event e s = (ok tt, record s { events = e ∷ s.events })
