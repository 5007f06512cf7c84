-- ===== src/Claims/Outcome.antt =====
-- A call of claims/src/lib.rs that makes a claim either fails with nothing changed or spends one
-- stored claim.
use xxchain.Common.{
  ℕ, ◌+◌, ◌-◌, ◌≤◌, ◌≡◌, refl, ap, ◌∙◌, false, some, List, [], ◌∷◌, arith, is_some, unwrap_or,
  Option, none, if◌then◌else◌, ◌==◌, list_eq, nat_eq, leb, Bool-cases, Option-cases, inl, inr, ◌⊎◌,
}
use xxchain.Frame.{
  Origin, ok, bad_origin, DispatchResult, claims_error, ClaimsError, Refuses,
  invalid_ethereum_signature, invalid_statement, sender_has_no_claim, signer_has_no_claim,
  pot_underflow, vested_balance_exists, ◌>>◌, modify, bind-ok, bind-err,
}
use xxchain.Frame.StorageMap.{get, remove}
use xxchain.Claims.Storage.{
  Config, Claims, EthereumAddress, EcdsaSignature, Externals, RewardHandler, Event, claimed,
}
use xxchain.Claims.Process.{settle, process_claim}
use xxchain.Claims.Calls.{recover, attests}
use xxchain.Claims.Calls
use xxchain.Claims.Paid.{
  has_both, refusal, world_after, process_claim-Refused, process_claim_settles, settle_lem,
}

-- What the events say was paid.
unfoldable pub paid : List Event → ℕ
paid [] = 0
paid (claimed who address amount reward ∷ es) = amount + paid es

-- What they say was paid to one account.
unfoldable pub paid_to : ℕ → List Event → ℕ
paid_to x [] = 0
paid_to x (claimed who address amount reward ∷ es) = (if who == x then amount else 0) + paid_to x es

module _ {W : Type 0} (externals : Externals W) (handler : RewardHandler W) where
  -- One stored claim is taken off the books, paid to an account, and reported.
  pub record Spent (s t : Claims W) (signer : EthereumAddress) (dest due : ℕ) : Type 0 where
    pub stored : get s.claims signer ≡ some due
    pub claims : t.claims ≡ remove s.claims signer
    pub total : t.total + due ≡ s.total
    pub world : t.world ≡ world_after externals handler s signer dest due
    pub events : t.events ≡ claimed dest signer due (unwrap_or (get s.rewards signer) 0) ∷ s.events

  -- The call fails with nothing changed, or makes the claim of the signer that is found.
  abbrev pub Outcome : DispatchResult (Claims W) → Claims W → Option EthereumAddress → ℕ → Type 0
  Outcome m s found dest =
      Refuses m s
      ⊎ (((m s).0 ≡ ok tt)
          × (signer : EthereumAddress) × (found ≡ some signer)
          × (due : ℕ) × Spent s (m s).1 signer dest due)

  refusal-cases :
      (s : Claims W) (signer : EthereumAddress) (dest : ℕ)
      → ((e : ClaimsError) × (refusal externals handler s signer dest ≡ some e))
        ⊎ ((due : ℕ) × (get s.claims signer ≡ some due)
            × (due ≤ s.total)
            × (has_both externals handler s signer dest ≡ false))
  refusal-cases s signer dest = elim (Option-cases (get s.claims signer)) [
    | inl missing ↦ inl (signer_has_no_claim, rw (refusal, missing) refl)
    | inr (due, stored) ↦ elim (Bool-cases (leb due s.total)) [
      | inl enough ↦ elim (Bool-cases (has_both externals handler s signer dest)) [
        | inl both ↦ inl (vested_balance_exists, rw (refusal, stored, enough, both) refl)
        | inr free ↦ inr (due, stored, ground arith, free)
      ]
      | inr short ↦ inl (pot_underflow, rw (refusal, stored, short) refl)
    ]
  ]

  settle-Spent :
      (s : Claims W) (signer : EthereumAddress) (dest due : ℕ)
      → get s.claims signer ≡ some due
      → due ≤ s.total
      → Spent s (settle externals handler signer dest due (s.total - due) s).1 signer dest due
  settle-Spent s signer dest due stored covered =
      rw (settle_lem externals handler s signer dest due (s.total - due)) (record {
        stored = stored;
        claims = refl;
        total = omega arith;
        world = refl;
        events = refl;
      })

  pub process_claim-Outcome :
      (s : Claims W) (signer : EthereumAddress) (dest : ℕ)
      → Outcome (process_claim externals handler signer dest) s (some signer) dest
  process_claim-Outcome s signer dest = elim (refusal-cases s signer dest) [
    | inl (e, refused) ↦
        inl (claims_error e, process_claim-Refused externals handler s signer dest e refused)
    | inr (due, stored, covered, free) ↦
        rw (process_claim_settles externals handler s signer dest due stored covered free) (
          inr (
            ap (λ r. r.0) (settle_lem externals handler s signer dest due (s.total - due)),
            signer,
            refl,
            due,
            settle-Spent s signer dest due stored covered,
          ))
  ]

module _ (config : Config) {W : Type 0} (externals : Externals W) (handler : RewardHandler W) where
  pub claim-Outcome :
      (s : Claims W) (o : Origin) (dest : ℕ) (signature : EcdsaSignature)
      → Outcome externals handler
          (Calls.claim config externals handler o dest signature)
          s
          (recover config externals handler dest signature [])
          dest
  unfolding Calls.claim
  claim-Outcome s Origin.unsigned dest signature =
      elim (Option-cases (recover config externals handler dest signature [])) [
        | inl missing ↦ inl (claims_error invalid_ethereum_signature, rw missing refl)
        | inr (signer, found) ↦ elim (Bool-cases (is_some (get s.signing signer))) [
          | inl signs ↦ inl (claims_error invalid_statement, rw (found, signs) refl)
          | inr plain ↦ rw (found, plain) (process_claim-Outcome externals handler s signer dest)
        ]
      ]
  claim-Outcome s o dest signature = inl (bad_origin, refl)

  pub claim_attest-Outcome :
      (s : Claims W) (o : Origin) (dest : ℕ) (signature : EcdsaSignature) (statement : List ℕ)
      → Outcome externals handler
          (Calls.claim_attest config externals handler o dest signature statement)
          s
          (recover config externals handler dest signature statement)
          dest
  unfolding Calls.claim_attest
  claim_attest-Outcome s Origin.unsigned dest signature statement =
      elim (Option-cases (recover config externals handler dest signature statement)) [
        | inl missing ↦ inl (claims_error invalid_ethereum_signature, rw missing refl)
        | inr (signer, found) ↦ elim (Bool-cases (attests (get s.signing signer) statement)) [
          | inl said ↦ rw (found, said) (process_claim-Outcome externals handler s signer dest)
          | inr unsaid ↦ inl (claims_error invalid_statement, rw (found, unsaid) refl)
        ]
      ]
  claim_attest-Outcome s o dest signature statement = inl (bad_origin, refl)

  -- The account that signs a call, and the address that it can attest for.
  abbrev pub sender : Origin → ℕ
  sender (Origin.signed who) = who
  sender _ = 0

  abbrev pub sender_preclaim : Claims W → Origin → Option EthereumAddress
  sender_preclaim s (Origin.signed who) = get s.preclaims who
  sender_preclaim s o = none

  -- Clearing the preclaim afterwards leaves the outcome.
  after-Outcome :
      (s : Claims W) (m : DispatchResult (Claims W)) (f : Claims W → Claims W)
      (found : Option EthereumAddress) (dest : ℕ)
      → ((t : Claims W)
          → ((f t).claims ≡ t.claims)
            × ((f t).total ≡ t.total)
            × ((f t).world ≡ t.world)
            × ((f t).events ≡ t.events))
      → Outcome externals handler m s found dest
      → Outcome externals handler (m >> modify f) s found dest
  after-Outcome s m f found dest same (inl (e, refused)) =
      inl (e, bind-err m (λ _. modify f) refused)
  after-Outcome s m f found dest same (inr (done, signer, it, due, spent)) =
      let t = (m s).1 in
      let whole : m s ≡ (ok tt, t) = λ i. (done i, t) in
      let last : (m >> modify f) s ≡ (ok tt, f t) = bind-ok m (λ _. modify f) whole in
      rw last (
        inr (
          refl,
          signer,
          it,
          due,
          record {
            stored = spent.stored;
            claims = (same t).0 ∙ spent.claims;
            total = ap (λ (n : ℕ). n + due) (same t).1 ∙ spent.total;
            world = (same t).2 ∙ spent.world;
            events = (same t).3 ∙ spent.events;
          },
        ))

  pub attest-Outcome :
      (s : Claims W) (o : Origin) (statement : List ℕ)
      → Outcome externals handler
          (Calls.attest config externals handler o statement)
          s
          (sender_preclaim s o)
          (sender o)
  unfolding Calls.attest
  attest-Outcome s (Origin.signed who) statement = elim (Option-cases (get s.preclaims who)) [
    | inl missing ↦ inl (claims_error sender_has_no_claim, rw missing refl)
    | inr (signer, found) ↦ elim (Bool-cases (attests (get s.signing signer) statement)) [
      | inl said ↦
          rw (found, said)
            (after-Outcome s (process_claim externals handler signer who)
              (λ t. record t { preclaims = remove t.preclaims who }) (some signer) who
              (λ t. (refl, refl, refl, refl))
              (process_claim-Outcome externals handler s signer who))
      | inr unsaid ↦ inl (claims_error invalid_statement, rw (found, unsaid) refl)
    ]
  ]
  attest-Outcome s o statement = inl (bad_origin, refl)
