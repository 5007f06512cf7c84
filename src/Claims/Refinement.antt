-- ===== src/Claims/Refinement.antt =====
-- What each call of claims/src/lib.rs does to the ledger, and that the code's maps implement it.
use xxchain.Common.{
  ℕ, ◌+◌, ◌-◌, ◌%◌, ◌<◌, ◌≡◌, refl, ap, ◌∙◌, false, Option, none, some, List, [], arith, list_eq,
  nat_eq, inl, inr, ◌==◌, if◌then◌else◌, Bool-cases, Option-cases, u128_mod,
}
use xxchain.Frame.{Origin, ok, DispatchResult}
use xxchain.Frame.StorageMap.{StorageMap, get, remove, get-remove, get-insert}
use xxchain.Claims.Storage.{
  Config, Claims, EthereumAddress, Externals, RewardHandler, Schedule, StatementKind,
}
use xxchain.Claims.Calls.{move_entry, recover}
use xxchain.Claims.Paid.{PaysOut}
use xxchain.Claims.Credited.{Credited, Spent-Credited, move_claim-keeps}
use xxchain.Claims.Calls
use xxchain.Claims.Validity.{Call, claim, mint_claim, claim_attest, attest, move_claim, run}
use xxchain.Claims.Books.{minted}
use xxchain.Claims.Ledger.{Ledger, put, Operation, pay, grant, transfer, moved_to, apply, Enabled}
use xxchain.Claims.Outcome.{
  Outcome, Spent, paid_to, claim-Outcome, claim_attest-Outcome, attest-Outcome,
}

moved-ledger :
    (m : StorageMap EthereumAddress ℕ) (old new j : EthereumAddress)
    → get (move_entry m old new) j ≡ moved_to new (get m old) (put old none (get m)) j
unfolding move_entry
moved-ledger m old new j = elim (Option-cases (get m old)) [
  | inl missing ↦ rw (move_entry, missing) (get-remove m old j)
  | inr (v, stored) ↦
      rw (move_entry, stored)
        (get-insert (remove m old) new j v
          ∙ ap (λ o. if new == j then some v else o) (get-remove m old j))
]

module _ {W : Type 0} where
  -- The ledger that the storage and the events hold.
  abbrev pub ledger : Claims W → Ledger
  ledger s = record { owed = get s.claims; total = s.total; paid_out = λ x. paid_to x s.events }

  Spent-ledger :
      (externals : Externals W) (handler : RewardHandler W) (s t : Claims W)
      (signer : EthereumAddress) (dest due : ℕ)
      → Spent externals handler s t signer dest due
      → ledger t ≡ apply (pay signer dest due) (ledger s)
  unfolding paid_to
  Spent-ledger externals handler s t signer dest due spent = λ i. record {
    owed = λ j. (ap (λ m. get m j) spent.claims ∙ get-remove s.claims signer j) i;
    total = less i;
    paid_out = λ x. paid_to x (spent.events i);
  }
    where
      less : t.total ≡ s.total - due
      less = omega (arith, spent.total)

module _ (config : Config) {W : Type 0} (externals : Externals W) (handler : RewardHandler W)
    (laws : PaysOut externals handler) where
  -- The operation that a call stands for: the signature over the destination tells whose claim is made, or
  -- the preclaim of the account that attests.
  abbrev pub StandsFor : Origin → Claims W → Call → Operation → Type 0
  StandsFor o s (claim dest signature) (pay a d due) =
      (recover config externals handler dest signature [] ≡ some a) × (dest ≡ d)
  StandsFor o s (claim_attest dest signature statement) (pay a d due) =
      (recover config externals handler dest signature statement ≡ some a) × (dest ≡ d)
  StandsFor o s (attest statement) (pay a d due) =
      (o ≡ Origin.signed d) × (get s.preclaims d ≡ some a)
  StandsFor o s (mint_claim who value vs statement) (grant a v) = (who ≡ a) × (value ≡ v)
  StandsFor o s (move_claim old new preclaim) (transfer a b) = (old ≡ a) × (new ≡ b)
  StandsFor o s c op = ⊥

  -- What an operation does to the balances: a payment credits what is due to the account, if that leaves
  -- at least the existential deposit in it, and nothing to others; other operations move no money.
  abbrev pub Funds : Operation → Claims W → Claims W → Type 0
  Funds (pay a dest due) s t = Credited externals handler laws s t dest due
  Funds op s t = t.world ≡ s.world

  abbrev pub Refines : Origin → Call → Claims W → Claims W → Type 0
  Refines o c s t =
      (op : Operation) × StandsFor o s c op
      × Enabled op (ledger s)
      × (ledger t ≡ apply op (ledger s))
      × Funds op s t

  Outcome-Refines :
      (o : Origin) (c : Call) (m : DispatchResult (Claims W)) (s : Claims W)
      (found : Option EthereumAddress) (dest : ℕ)
      → ((a : EthereumAddress) (due : ℕ) → found ≡ some a → StandsFor o s c (pay a dest due))
      → (m s).0 ≡ ok tt
      → Outcome externals handler m s found dest
      → Refines o c s (m s).1
  Outcome-Refines o c m s found dest fits h (inl (e, refused)) = absurd (cc (refused, h))
  Outcome-Refines o c m s found dest fits h (inr (done, signer, it, due, spent)) = (
    pay signer dest due,
    fits signer due it,
    (spent.stored, omega (arith, spent.total)),
    Spent-ledger externals handler s (m s).1 signer dest due spent,
    Spent-Credited externals handler laws s (m s).1 signer dest due spent,
  )

  mint_claim-Refines :
      (s : Claims W) (o : Origin) (who : EthereumAddress) (value : ℕ) (vs : Option (List Schedule))
      (statement : Option StatementKind)
      → s.total + value < u128_mod
      → (Calls.mint_claim config externals handler o who value vs statement s).0 ≡ ok tt
      → Refines o
          (mint_claim who value vs statement)
          s
          (Calls.mint_claim config externals handler o who value vs statement s).1
  unfolding Calls.mint_claim
  mint_claim-Refines s Origin.root who value vs statement fits h =
      let kept : (s.total + value) % u128_mod ≡ s.total + value = omega (arith, fits) in
      (
        grant who value,
        (refl, refl),
        tt,
        λ i. record {
          owed = λ j. get-insert s.claims who j value i;
          total = kept i;
          paid_out = λ x. paid_to x s.events;
        },
        refl,
      )
  mint_claim-Refines s o who value vs statement fits h = absurd (cc h)

  -- What a move does to the parts that the ledger sees.
  abbrev Entries : Claims W → Claims W → EthereumAddress → EthereumAddress → Type 0
  Entries s t old new =
      (t.claims ≡ move_entry s.claims old new) × (t.total ≡ s.total) × (t.events ≡ s.events)

  not_admin-Entries :
      (s : Claims W) (o : Origin) (old new : EthereumAddress) (preclaim : Option ℕ)
      → config.move_claim_origin o ≡ false
      → (Calls.move_claim config externals handler o old new preclaim s).0 ≡ ok tt
      → Entries s (Calls.move_claim config externals handler o old new preclaim s).1 old new
  unfolding Calls.move_claim
  not_admin-Entries s Origin.root old new preclaim other h = rw other (refl, refl, refl)
  not_admin-Entries s o old new preclaim other h = absurd (cc (rw other at h))

  move_claim-Entries :
      (s : Claims W) (o : Origin) (old new : EthereumAddress) (preclaim : Option ℕ)
      → (Calls.move_claim config externals handler o old new preclaim s).0 ≡ ok tt
      → Entries s (Calls.move_claim config externals handler o old new preclaim s).1 old new
  unfolding Calls.move_claim
  move_claim-Entries s o old new preclaim h = elim (Bool-cases (config.move_claim_origin o)) [
    | inl admin ↦ rw admin (refl, refl, refl)
    | inr other ↦ not_admin-Entries s o old new preclaim other h
  ]

  move_claim-Refines :
      (s : Claims W) (o : Origin) (old new : EthereumAddress) (preclaim : Option ℕ)
      → (Calls.move_claim config externals handler o old new preclaim s).0 ≡ ok tt
      → Refines o
          (move_claim old new preclaim)
          s
          (Calls.move_claim config externals handler o old new preclaim s).1
  move_claim-Refines s o old new preclaim h =
      let t = (Calls.move_claim config externals handler o old new preclaim s).1 in
      let kept = move_claim-Entries s o old new preclaim h in
      (
        transfer old new,
        (refl, refl),
        tt,
        λ i. record {
          owed = λ j. (ap (λ m. get m j) kept.0 ∙ moved-ledger s.claims old new j) i;
          total = kept.1 i;
          paid_out = λ x. paid_to x (kept.2 i);
        },
        (move_claim-keeps config externals handler s o old new preclaim).0,
      )

  -- With a currency that pays out, as `PaysOut` says, the storage implements the ledger: a call that succeeds does to the ledger that the storage and the
  -- events hold exactly the operation that the call stands for, the ledger could make it, and the balances
  -- follow. A claim pays what is owed to the address that signed for the account, an attestation what is
  -- owed to the address of the sender's preclaim; the account is credited exactly that, if that leaves at
  -- least the existential deposit in it, and no other account anything. A mint grants a value to its
  -- address, a move transfers an entry, and neither moves money; as long as a mint does not carry the total
  -- to the bound of the balance type.
  pub run-Refines :
      (o : Origin) (c : Call) (s : Claims W)
      → s.total + minted c < u128_mod
      → (run config externals handler o c s).0 ≡ ok tt
      → Refines o c s (run config externals handler o c s).1
  unfolding run Calls.attest
  run-Refines o (claim dest signature) s fits h =
      Outcome-Refines o (claim dest signature)
        (Calls.claim config externals handler o dest signature) s
        (recover config externals handler dest signature []) dest (λ a due it. (it, refl)) h
        (claim-Outcome config externals handler s o dest signature)
  run-Refines o (mint_claim who value vs statement) s fits h =
      mint_claim-Refines s o who value vs statement fits h
  run-Refines o (claim_attest dest signature statement) s fits h =
      Outcome-Refines o (claim_attest dest signature statement)
        (Calls.claim_attest config externals handler o dest signature statement) s
        (recover config externals handler dest signature statement) dest (λ a due it. (it, refl)) h
        (claim_attest-Outcome config externals handler s o dest signature statement)
  run-Refines (Origin.signed who) (attest statement) s fits h =
      Outcome-Refines (Origin.signed who) (attest statement)
        (Calls.attest config externals handler (Origin.signed who) statement) s
        (get s.preclaims who) who (λ a due it. (refl, it)) h
        (attest-Outcome config externals handler s (Origin.signed who) statement)
  run-Refines o (attest statement) s fits h = absurd (cc h)
  run-Refines o (move_claim old new preclaim) s fits h = move_claim-Refines s o old new preclaim h
