-- ===== src/Claims/Calls.antt =====
-- The calls and the genesis build of claims/src/lib.rs.
use xxchain.Common.{
  ℕ, Bool, true, not, Option, none, some, List, [], ◌∷◌, ◌==◌, if◌then◌else◌, is_some, list_eq,
  nat_eq, u128_mod, wrapping_add,
}
use xxchain.Frame.{
  claims_error, invalid_ethereum_signature, invalid_statement, sender_has_no_claim, DispatchResult,
  ok_or, ensure, modify, ◌>>=◌, ◌>>◌, Origin, ensure_signed, ensure_root, ensure_none,
  origin_or_root,
}
use xxchain.Frame.StorageMap.{StorageMap, get, insert, remove, empty}
use xxchain.Claims.Storage.{
  Config, Claims, EthereumAddress, EcdsaSignature, Externals, RewardHandler, Schedule,
  StatementKind, to_text,
}
use xxchain.Claims.Message.{to_ascii_hex, eth_recover}
use xxchain.Claims.Process.{process_claim}

-- `if let Some(s) = ... { ensure!(s.to_text() == statement) }`
unfoldable pub attests : Option StatementKind → List ℕ → Bool
attests none statement = true
attests (some kind) statement = to_text kind == statement

-- `if let Some(v) = value { insert(who, v) }`
abbrev pub insert_optional :
    {V : Type 0}
    → StorageMap EthereumAddress V
    → EthereumAddress
    → Option V
    → StorageMap EthereumAddress V
insert_optional m who none = m
insert_optional m who (some v) = insert m who v

-- `take(&old).map(|c| insert(&new, c))`
unfoldable pub move_entry :
    {V : Type 0}
    → StorageMap EthereumAddress V
    → EthereumAddress
    → EthereumAddress
    → StorageMap EthereumAddress V
move_entry m old new = insert_optional (remove m old) new (get m old)

-- `mutate` of a preclaim.
unfoldable pub move_preclaim :
    StorageMap ℕ EthereumAddress
    → EthereumAddress
    → EthereumAddress
    → Option ℕ
    → StorageMap ℕ EthereumAddress
move_preclaim m old new none = m
move_preclaim m old new (some preclaim) = elim (get m preclaim) [
  | none ↦ m
  | some o ↦ if o == old then insert m preclaim new else m
]

module _ (config : Config) {W : Type 0} (externals : Externals W) (handler : RewardHandler W) where
  -- The signer of a claim for an account.
  abbrev pub recover : ℕ → EcdsaSignature → List ℕ → Option EthereumAddress
  recover dest signature extra =
      eth_recover config signature (to_ascii_hex (config.encode_account dest)) extra

  unfoldable pub claim : Origin → ℕ → EcdsaSignature → DispatchResult (Claims W)
  claim origin dest ethereum_signature s =
      (do
        ensure_none origin
        signer ←
            ok_or (recover dest ethereum_signature []) (claims_error invalid_ethereum_signature)
        ensure (not (is_some (get s.signing signer))) (claims_error invalid_statement)
        process_claim externals handler signer dest)
        s

  unfoldable pub mint_claim :
      Origin
      → EthereumAddress
      → ℕ
      → Option (List Schedule)
      → Option StatementKind
      → DispatchResult (Claims W)
  mint_claim origin who value vesting_schedules statement = do
    ensure_root origin
    modify (λ s. record s { total = wrapping_add u128_mod s.total value })
    modify (λ s. record s { claims = insert s.claims who value })
    modify (λ s. record s { vesting = insert_optional s.vesting who vesting_schedules })
    modify (λ s. record s { signing = insert_optional s.signing who statement })

  unfoldable pub claim_attest : Origin → ℕ → EcdsaSignature → List ℕ → DispatchResult (Claims W)
  claim_attest origin dest ethereum_signature statement s =
      (do
        ensure_none origin
        signer ←
            ok_or (recover dest ethereum_signature statement)
              (claims_error invalid_ethereum_signature)
        ensure (attests (get s.signing signer) statement) (claims_error invalid_statement)
        process_claim externals handler signer dest)
        s

  unfoldable pub attest : Origin → List ℕ → DispatchResult (Claims W)
  attest origin statement s =
      (do
        who ← ensure_signed origin
        signer ← ok_or (get s.preclaims who) (claims_error sender_has_no_claim)
        ensure (attests (get s.signing signer) statement) (claims_error invalid_statement)
        process_claim externals handler signer who
        modify (λ s. record s { preclaims = remove s.preclaims who }))
        s

  unfoldable pub move_claim :
      Origin → EthereumAddress → EthereumAddress → Option ℕ → DispatchResult (Claims W)
  move_claim origin old new maybe_preclaim = do
    origin_or_root config.move_claim_origin origin
    modify (λ s. record s { claims = move_entry s.claims old new })
    modify (λ s. record s { vesting = move_entry s.vesting old new })
    modify (λ s. record s { signing = move_entry s.signing old new })
    modify (λ s. record s { preclaims = move_preclaim s.preclaims old new maybe_preclaim })

-- An entry of `config.claims`.
pub record ClaimEntry : Type 0 where
  pub address : EthereumAddress
  pub value : ℕ
  pub reward : Option ℕ
  pub account : Option ℕ
  pub statement : Option StatementKind

pub record GenesisConfig : Type 0 where
  pub claims : List ClaimEntry
  pub vesting : List (EthereumAddress × List Schedule)

-- One entry goes into the maps of the storage; `total` is the fold over the values.
unfoldable pub add_entry : {W : Type 0} → ClaimEntry → Claims W → Claims W
add_entry e s = record s {
  claims = insert s.claims e.address e.value;
  total = wrapping_add u128_mod s.total e.value;
  signing = insert_optional s.signing e.address e.statement;
  preclaims = elim e.account [ none ↦ s.preclaims | some i ↦ insert s.preclaims i e.address ];
  rewards = insert_optional s.rewards e.address e.reward;
}

unfoldable pub add_entries : {W : Type 0} → List ClaimEntry → Claims W → Claims W
add_entries [] s = s
add_entries (e ∷ es) s = add_entries es (add_entry e s)

unfoldable pub vesting_of :
    List (EthereumAddress × List Schedule)
    → StorageMap EthereumAddress (List Schedule)
    → StorageMap EthereumAddress (List Schedule)
vesting_of [] m = m
vesting_of ((who, vs) ∷ xs) m = vesting_of xs (insert m who vs)

-- The storage before the entries are added; the schedules are configured as they are.
abbrev pub blank : {W : Type 0} → GenesisConfig → W → Claims W
blank g w = record {
  claims = empty;
  total = 0;
  vesting = vesting_of g.vesting empty;
  signing = empty;
  preclaims = empty;
  rewards = empty;
  events = [];
  world = w;
}

-- The genesis build.
unfoldable pub genesis_build : {W : Type 0} → GenesisConfig → W → Claims W
genesis_build g w = add_entries g.claims (blank g w)
