-- ===== src/Claims/Attested.antt =====
-- What PrevalidateAttests of claims/src/lib.rs says of the execution of an attestation.
use xxchain.Common.{
  ℕ, ◌≡◌, refl, true, false, none, some, List, list_eq, nat_eq, Bool-cases, Option-cases, inl, inr,
}
use xxchain.Frame.{
  Origin, claims_error, Refuses, invalid_statement, sender_has_no_claim, ◌>>◌, modify,
}
use xxchain.Frame.StorageMap.{get, remove}
use xxchain.Claims.Storage.{Config, Claims, EthereumAddress, Externals, RewardHandler}
use xxchain.Claims.Process.{process_claim}
use xxchain.Claims.Calls.{recover, attests}
use xxchain.Claims.Calls
use xxchain.Claims.Validity.{attest, run, valid, invalid, TransactionValidity, validate}

module _ (config : Config) {W : Type 0} (externals : Externals W) (handler : RewardHandler W) where
  -- `attest` as the extension sees it.
  abbrev pub Attests : Claims W → ℕ → List ℕ → TransactionValidity → Type 0
  Attests s who statement (valid v) =
      (signer : EthereumAddress) × (get s.preclaims who ≡ some signer)
      × (run config externals handler (Origin.signed who) (attest statement) s
          ≡ (process_claim externals handler signer who
                >> modify (λ t. record t { preclaims = remove t.preclaims who }))
              s)
  Attests s who statement (invalid e) =
      Refuses (run config externals handler (Origin.signed who) (attest statement)) s

  attest_missing :
      (s : Claims W) (who : ℕ) (statement : List ℕ)
      → get s.preclaims who ≡ none
      → Refuses (Calls.attest config externals handler (Origin.signed who) statement) s
  unfolding Calls.attest
  attest_missing s who statement missing = (claims_error sender_has_no_claim, rw missing refl)

  attest_unsaid :
      (s : Claims W) (who : ℕ) (statement : List ℕ) (signer : EthereumAddress)
      → get s.preclaims who ≡ some signer
      → attests (get s.signing signer) statement ≡ false
      → Refuses (Calls.attest config externals handler (Origin.signed who) statement) s
  unfolding Calls.attest
  attest_unsaid s who statement signer found unsaid =
      (claims_error invalid_statement, rw (found, unsaid) refl)

  attest_said :
      (s : Claims W) (who : ℕ) (statement : List ℕ) (signer : EthereumAddress)
      → get s.preclaims who ≡ some signer
      → attests (get s.signing signer) statement ≡ true
      → Calls.attest config externals handler (Origin.signed who) statement s
        ≡ (process_claim externals handler signer who
              >> modify (λ t. record t { preclaims = remove t.preclaims who }))
            s
  unfolding Calls.attest
  attest_said s who statement signer found said = rw (found, said) refl

  -- The signed extension admits an attestation exactly if its execution gets past its checks: an
  -- admitted one comes down to the claim that is registered for the sender, and one that is not
  -- admitted would be refused with nothing changed.
  pub validate-Attests :
      (s : Claims W) (who : ℕ) (statement : List ℕ)
      → Attests s who statement (validate config externals handler s who (attest statement))
  unfolding validate run
  validate-Attests s who statement = elim (Option-cases (get s.preclaims who)) [
    | inl missing ↦ rw (Attests, missing) (attest_missing s who statement missing)
    | inr (signer, found) ↦ elim (Bool-cases (attests (get s.signing signer) statement)) [
      | inl said ↦
          rw (Attests, found, said) (signer, found, attest_said s who statement signer found said)
      | inr unsaid ↦ rw (Attests, found, unsaid) (attest_unsaid s who statement signer found unsaid)
    ]
  ]
