-- ===== src/Claims/History.antt =====
-- Whole calls and histories of claims/src/lib.rs: failing calls change nothing, and the books balance.
use xxchain.Common.{
  ℕ, ◌+◌, ◌-◌, [], ◌≤◌, ◌<◌, ◌≡◌, refl, ap, false, Option, List, arith, list_eq, nat_eq, inl, inr,
  ◌⊎◌, u128_mod, Bool-cases,
}
use xxchain.Frame.{Origin, ok, err, bad_origin, DispatchError, DispatchResult, Refuses}
use xxchain.Claims.Storage.{
  Config, Claims, EthereumAddress, Externals, RewardHandler, Schedule, StatementKind,
}
use xxchain.Claims.Calls
use xxchain.Claims.Validity.{Call, claim, mint_claim, claim_attest, attest, move_claim, run}
use xxchain.Claims.Calls.{recover}
use xxchain.Claims.Paid.{PaysOut}
use xxchain.Claims.Credited.{
  ArePayable, Reports, Outcome-Reports, kept-Reports, mint_claim-keeps, move_claim-keeps,
}
use xxchain.Claims.Outcome.{
  Outcome, paid, paid_to, sender, sender_preclaim, claim-Outcome, claim_attest-Outcome,
  attest-Outcome,
}
use xxchain.Claims.Books.{
  InOrder, Balances, minted, claimable, Outcome-Balances, mint_claim-Balances, moved-Balances,
}

module _ (config : Config) {W : Type 0} (externals : Externals W) (handler : RewardHandler W) where
  -- The call fails with nothing changed, or it succeeds.
  abbrev Settles : DispatchResult (Claims W) → Claims W → Type 0
  Settles m s = Refuses m s ⊎ ((m s).0 ≡ ok tt)

  Outcome-Settles :
      (m : DispatchResult (Claims W)) (s : Claims W) (found : Option EthereumAddress) (dest : ℕ)
      → Outcome externals handler m s found dest
      → Settles m s
  Outcome-Settles m s found dest (inl refused) = inl refused
  Outcome-Settles m s found dest (inr (done, _, _, _, _)) = inr done

  mint_claim-Settles :
      (s : Claims W) (o : Origin) (who : EthereumAddress) (value : ℕ) (vs : Option (List Schedule))
      (statement : Option StatementKind)
      → Settles (Calls.mint_claim config externals handler o who value vs statement) s
  unfolding Calls.mint_claim
  mint_claim-Settles s Origin.root who value vs statement = inr refl
  mint_claim-Settles s o who value vs statement = inl (bad_origin, refl)

  abbrev Moves : Claims W → Origin → EthereumAddress → EthereumAddress → Option ℕ → Type 0
  Moves s o old new preclaim =
      Refuses (Calls.move_claim config externals handler o old new preclaim) s
      ⊎ (((Calls.move_claim config externals handler o old new preclaim s).0 ≡ ok tt)
          × Balances 0 s (Calls.move_claim config externals handler o old new preclaim s).1)

  move_claim_not_admin :
      (s : Claims W) (o : Origin) (old new : EthereumAddress) (preclaim : Option ℕ)
      → config.move_claim_origin o ≡ false
      → Moves s o old new preclaim
  unfolding Calls.move_claim
  move_claim_not_admin s Origin.root old new preclaim h =
      rw h (inr (refl, moved-Balances config externals handler s old new _ refl refl refl))
  move_claim_not_admin s o old new preclaim h = rw h (inl (bad_origin, refl))

  move_claim-Moves :
      (s : Claims W) (o : Origin) (old new : EthereumAddress) (preclaim : Option ℕ)
      → Moves s o old new preclaim
  unfolding Calls.move_claim
  move_claim-Moves s o old new preclaim = elim (Bool-cases (config.move_claim_origin o)) [
    | inl admin ↦
        rw admin (inr (refl, moved-Balances config externals handler s old new _ refl refl refl))
    | inr other ↦ move_claim_not_admin s o old new preclaim other
  ]

  run-Settles :
      (o : Origin) (c : Call) (s : Claims W) → Settles (run config externals handler o c) s
  unfolding run
  run-Settles o (claim dest signature) s =
      Outcome-Settles (Calls.claim config externals handler o dest signature) s
        (recover config externals handler dest signature []) dest
        (claim-Outcome config externals handler s o dest signature)
  run-Settles o (mint_claim who value vs statement) s =
      mint_claim-Settles s o who value vs statement
  run-Settles o (claim_attest dest signature statement) s =
      Outcome-Settles (Calls.claim_attest config externals handler o dest signature statement) s
        (recover config externals handler dest signature statement) dest
        (claim_attest-Outcome config externals handler s o dest signature statement)
  run-Settles o (attest statement) s =
      Outcome-Settles (Calls.attest config externals handler o statement) s
        (sender_preclaim config externals handler s o) (sender config externals handler o)
        (attest-Outcome config externals handler s o statement)
  run-Settles o (move_claim old new preclaim) s = elim (move_claim-Moves s o old new preclaim) [
    | inl refused ↦ inl refused
    | inr (done, _) ↦ inr done
  ]

  -- A call that fails, whatever the call and the origin, has changed nothing: all checks come before
  -- the first write.
  pub claims-Atomic :
      (o : Origin) (c : Call) (s : Claims W) (e : DispatchError)
      → (run config externals handler o c s).0 ≡ err e
      → (run config externals handler o c s).1 ≡ s
  claims-Atomic o c s e h = elim (run-Settles o c s) [
    | inl (x, refused) ↦ ap (λ r. r.1) refused
    | inr done ↦ absurd (cc (done, h))
  ]

  run-Balances :
      (o : Origin) (c : Call) (s : Claims W)
      → s.total + minted c < u128_mod
      → (run config externals handler o c s).0 ≡ ok tt
      → Balances (minted c) s (run config externals handler o c s).1
  unfolding run
  run-Balances o (claim dest signature) s fits h =
      Outcome-Balances externals handler (Calls.claim config externals handler o dest signature) s
        (recover config externals handler dest signature []) dest h
        (claim-Outcome config externals handler s o dest signature)
  run-Balances o (mint_claim who value vs statement) s fits h =
      mint_claim-Balances config externals handler s o who value vs statement fits h
  run-Balances o (claim_attest dest signature statement) s fits h =
      Outcome-Balances externals handler
        (Calls.claim_attest config externals handler o dest signature statement) s
        (recover config externals handler dest signature statement) dest h
        (claim_attest-Outcome config externals handler s o dest signature statement)
  run-Balances o (attest statement) s fits h =
      Outcome-Balances externals handler (Calls.attest config externals handler o statement) s
        (sender_preclaim config externals handler s o) (sender config externals handler o) h
        (attest-Outcome config externals handler s o statement)
  run-Balances o (move_claim old new preclaim) s fits h =
      elim (move_claim-Moves s o old new preclaim) [
        | inl (e, refused) ↦ absurd (cc (refused, h))
        | inr (_, balances) ↦ balances
      ]

  module _ (laws : PaysOut externals handler) where
    run-Reports :
        (o : Origin) (c : Call) (s : Claims W)
        → ArePayable externals handler laws s
        → (run config externals handler o c s).0 ≡ ok tt
        → Reports externals handler laws s (run config externals handler o c s).1
    unfolding run
    run-Reports o (claim dest signature) s payable h =
        Outcome-Reports externals handler laws
          (Calls.claim config externals handler o dest signature) s
          (recover config externals handler dest signature []) dest payable h
          (claim-Outcome config externals handler s o dest signature)
    run-Reports o (mint_claim who value vs statement) s payable h =
        kept-Reports config externals handler laws s
          (Calls.mint_claim config externals handler o who value vs statement s).1
          (mint_claim-keeps config externals handler s o who value vs statement)
    run-Reports o (claim_attest dest signature statement) s payable h =
        Outcome-Reports externals handler laws
          (Calls.claim_attest config externals handler o dest signature statement) s
          (recover config externals handler dest signature statement) dest payable h
          (claim_attest-Outcome config externals handler s o dest signature statement)
    run-Reports o (attest statement) s payable h =
        Outcome-Reports externals handler laws (Calls.attest config externals handler o statement) s
          (sender_preclaim config externals handler s o) (sender config externals handler o) payable
          h (attest-Outcome config externals handler s o statement)
    run-Reports o (move_claim old new preclaim) s payable h =
        kept-Reports config externals handler laws s
          (Calls.move_claim config externals handler o old new preclaim s).1
          (move_claim-keeps config externals handler s o old new preclaim)

    -- What the balance of an account has gained.
    abbrev pub gain : Claims W → Claims W → ℕ → ℕ
    gain s t x = laws.balance t.world x - laws.balance s.world x

    -- What happened since a state, with the amount that was minted and what the balance of each account has
    -- gained and lost in the calls. A failing call changes nothing.
    pub data History (start : Claims W) : ℕ → (ℕ → ℕ) → (ℕ → ℕ) → Claims W → Type 0 where
      begin : History start 0 (λ x. 0) (λ x. 0) start
      called :
          {s : Claims W} {amount : ℕ} {gained lost : ℕ → ℕ} (o : Origin) (c : Call)
          → (run config externals handler o c s).0 ≡ ok tt
          → s.total + minted c < u128_mod
          → ArePayable externals handler laws s
          → History start amount gained lost s
          → History start
              (amount + minted c)
              (λ x. gained x + gain s (run config externals handler o c s).1 x)
              (λ x. lost x + gain (run config externals handler o c s).1 s x)
              (run config externals handler o c s).1
      -- what others do to their own state, balances included, is arbitrary
      elsewhere :
          {s : Claims W} {amount : ℕ} {gained lost : ℕ → ℕ} (w : W)
          → History start amount gained lost s
          → History start amount gained lost (record s { world = w })

    -- With a currency that pays out, as `PaysOut` says, however the calls follow each other, as long as minting does not reach the bound of the balance
    -- type and no claim is below the existential deposit when a call is made: the balance of each account
    -- has gained in the calls exactly what their events report as paid to it, and lost nothing; what the events report as
    -- paid and what is in the total add up to what they were at the start and what was minted since; and
    -- the stored claims never add up to more than the total, so that what was paid and what can still be
    -- claimed never exceed what was there and what was minted.
    pub History-Balances :
        {start s : Claims W} {amount : ℕ} {gained lost : ℕ → ℕ}
        → InOrder start
        → History start amount gained lost s
        → ((x : ℕ) → (gained x + paid_to x start.events ≡ paid_to x s.events) × (lost x ≡ 0))
          × (paid s.events + s.total ≡ paid start.events + start.total + amount)
          × InOrder s
          × (paid s.events + claimable s.claims ≤ paid start.events + start.total + amount)
    History-Balances order begin =
        (λ x. (omega arith, refl), omega arith, order, omega (arith, order.covered))
    History-Balances order
          (called {s = s} {amount = amount} {gained = gained} {lost = lost} o c done fits payable
            h) =
        let (credits, sum, kept, _) = History-Balances order h in
        let step = run-Balances o c s fits done in
        let reports = run-Reports o c s payable done in
        let kept' = step.order kept in
        (
          λ x. (
            omega (arith, (credits x).0, (reports x).1),
            omega (arith, (credits x).1, (reports x).0),
          ),
          omega (arith, sum, step.conserved),
          kept',
          omega (arith, sum, step.conserved, kept'.covered),
        )
    History-Balances order (elsewhere w h) =
        let (credits, sum, kept, bound) = History-Balances order h in
        (credits, sum, record { proper = kept.proper; covered = kept.covered }, bound)
