-- ===== src/Claims/Validity.antt =====
-- Validation of transactions before they are executed: validate_unsigned and PrevalidateAttests of
-- claims/src/lib.rs.
use xxchain.Common.{
  ℕ, ◌-◌, Bool, true, false, Option, none, some, List, [], ◌∷◌, ◌==◌, codes, list_eq, nat_eq,
  u64_mod,
}
use xxchain.Frame.{Origin, DispatchResult}
use xxchain.Frame.StorageMap.{get, contains_key}
use xxchain.Claims.Storage.{
  Config, Claims, EthereumAddress, EcdsaSignature, Externals, RewardHandler, Schedule,
  StatementKind, to_text,
}
use xxchain.Claims.Calls.{recover, attests}
use xxchain.Claims.Calls

-- `enum Call`.
pub data Call : Type 0 where
  claim : (dest : ℕ) → EcdsaSignature → Call
  mint_claim : EthereumAddress → (value : ℕ) → Option (List Schedule) → Option StatementKind → Call
  claim_attest : (dest : ℕ) → EcdsaSignature → (statement : List ℕ) → Call
  attest : (statement : List ℕ) → Call
  move_claim : (old new : EthereumAddress) → Option ℕ → Call

pub data ValidityError : Type 0 where
  invalid_ethereum_signature signer_has_no_claim no_permission invalid_statement : ValidityError

pub data InvalidTransaction : Type 0 where
  -- `InvalidTransaction::Call`
  not_unsigned : InvalidTransaction
  custom : ValidityError → InvalidTransaction

-- A tag is a pair before its encoding; the field `requires` is always empty.
pub record ValidTransaction : Type 0 where
  pub priority : ℕ
  pub provides : List (List ℕ × EthereumAddress)
  pub longevity : ℕ
  pub propagate : Bool

pub data TransactionValidity : Type 0 where
  valid : ValidTransaction → TransactionValidity
  invalid : InvalidTransaction → TransactionValidity

abbrev pub ensure_valid : Bool → ValidityError → TransactionValidity → TransactionValidity
ensure_valid true e rest = rest
ensure_valid false e rest = invalid (custom e)

-- `Signing::get(signer)` against the statement of the call: none is expected and none given, or the
-- expected one is given.
unfoldable pub expects : Option StatementKind → Option (List ℕ) → Bool
expects none none = true
expects none (some statement) = false
expects (some kind) none = false
expects (some kind) (some statement) = to_text kind == statement

abbrev pub default_valid : ValidTransaction
default_valid = record { priority = 0; provides = []; longevity = u64_mod - 1; propagate = true }

module _ (config : Config) {W : Type 0} (externals : Externals W) (handler : RewardHandler W) where
  unfoldable pub run : Origin → Call → DispatchResult (Claims W)
  run o (claim dest signature) = Calls.claim config externals handler o dest signature
  run o (mint_claim who value vs statement) =
      Calls.mint_claim config externals handler o who value vs statement
  run o (claim_attest dest signature statement) =
      Calls.claim_attest config externals handler o dest signature statement
  run o (attest statement) = Calls.attest config externals handler o statement
  run o (move_claim old new preclaim) = Calls.move_claim config externals handler o old new preclaim

  -- What follows the `match` on the call.
  unfoldable pub validate_signer :
      Claims W → Option EthereumAddress → Option (List ℕ) → TransactionValidity
  validate_signer s none statement = invalid (custom invalid_ethereum_signature)
  validate_signer s (some signer) statement =
      ensure_valid (contains_key s.claims signer) signer_has_no_claim (
        ensure_valid (expects (get s.signing signer) statement) invalid_statement (
          valid (record {
            priority = 100;
            provides = (codes "claims", signer) ∷ [];
            longevity = u64_mod - 1;
            propagate = true;
          })))

  unfoldable pub validate_unsigned : Claims W → Call → TransactionValidity
  validate_unsigned s (claim dest signature) =
      validate_signer s (recover config externals handler dest signature []) none
  validate_unsigned s (claim_attest dest signature statement) =
      validate_signer s (recover config externals handler dest signature statement) (some statement)
  validate_unsigned s _ = invalid not_unsigned

  -- `PrevalidateAttests::validate`, for a call of this pallet.
  unfoldable pub validate : Claims W → ℕ → Call → TransactionValidity
  validate s who (attest statement) = elim (get s.preclaims who) [
    | none ↦ invalid (custom signer_has_no_claim)
    | some signer ↦
        ensure_valid (attests (get s.signing signer) statement) invalid_statement
          (valid default_valid)
  ]
  validate s who _ = valid default_valid
