-- ===== src/Claims/Agreement.antt =====
-- What the validation of transactions in claims/src/lib.rs says of their execution.
use xxchain.Common.{
  ℕ, ◌≡◌, true, false, Option, none, some, List, [], ◌∷◌, list_eq, nat_eq, ◌⊎◌, codes,
}
use xxchain.Frame.{Origin, DispatchResult, Refuses}
use xxchain.Frame.StorageMap.{get}
use xxchain.Claims.Storage.{Config, Claims, EthereumAddress, Externals, RewardHandler}
use xxchain.Claims.Process.{process_claim}
use xxchain.Claims.Calls.{recover}
use xxchain.Claims.Calls
use xxchain.Claims.Validity.{
  Call, claim, claim_attest, run, ValidTransaction, valid, invalid, TransactionValidity, expects,
}

module _ (config : Config) {W : Type 0} (externals : Externals W) (handler : RewardHandler W) where
  -- The call comes down to the claim of a signer who has one, and the transaction provides that
  -- signer's tag.
  abbrev pub Claiming : Claims W → DispatchResult (Claims W) → ℕ → ValidTransaction → Type 0
  Claiming s m dest v =
      (signer : EthereumAddress) × (due : ℕ) × (get s.claims signer ≡ some due)
      × (m s ≡ process_claim externals handler signer dest s)
      × (v.provides ≡ (codes "claims", signer) ∷ [])

  -- A statement is given where none is expected, and the call comes down to the claim of the signer.
  abbrev pub Needless :
      Claims W → DispatchResult (Claims W) → ℕ → Option EthereumAddress → Option (List ℕ) → Type 0
  Needless s m dest o none = ⊥
  Needless s m dest o (some statement) =
      (signer : EthereumAddress) × (o ≡ some signer)
      × (get s.signing signer ≡ none)
      × (m s ≡ process_claim externals handler signer dest s)

  abbrev pub Judged :
      Claims W
      → DispatchResult (Claims W)
      → ℕ
      → Option EthereumAddress
      → Option (List ℕ)
      → TransactionValidity
      → Type 0
  Judged s m dest o statement (valid v) = Claiming s m dest v
  Judged s m dest o statement (invalid e) = Refuses m s ⊎ Needless s m dest o statement

  -- The checks after the signer is known.
  abbrev Expected :
      Claims W → DispatchResult (Claims W) → ℕ → EthereumAddress → Option (List ℕ) → Type 0
  Expected s m dest signer statement =
      ((expects (get s.signing signer) statement ≡ true)
        × (m s ≡ process_claim externals handler signer dest s))
      ⊎ ((expects (get s.signing signer) statement ≡ false)
          × (Refuses m s ⊎ Needless s m dest (some signer) statement))

  -- Where a call is not an unsigned claim, and where it is one.
  abbrev pub Foretells : Claims W → Call → TransactionValidity → Type 0
  Foretells s (claim dest signature) v =
      Judged s (run config externals handler Origin.unsigned (claim dest signature)) dest
        (recover config externals handler dest signature []) none v
  Foretells s (claim_attest dest signature statement) v =
      Judged s
        (run config externals handler Origin.unsigned (claim_attest dest signature statement)) dest
        (recover config externals handler dest signature statement) (some statement) v
  Foretells s c v = Refuses (run config externals handler Origin.unsigned c) s
