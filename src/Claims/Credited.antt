-- ===== src/Claims/Credited.antt =====
-- What the calls of claims/src/lib.rs credit to accounts, and what they report of it.
use xxchain.Common.{
  ℕ, ◌+◌, ◌-◌, ◌≤◌, ◌≡◌, ◌≢◌, refl, ap, ◌∙◌, Option, some, List, arith, list_eq, nat_eq, inl, inr,
  ◌==◌, Bool-cases,
}
use mathlib.Core.Path.{subst}
use xxchain.Frame.{Origin, ok, DispatchResult}
use xxchain.Frame.StorageMap.{get}
use xxchain.Claims.Storage.{
  Config, Claims, EthereumAddress, Externals, RewardHandler, Schedule, StatementKind,
}
use xxchain.Claims.Calls
use xxchain.Claims.Paid.{PaysOut, balance-world_after}
use xxchain.Claims.Outcome.{Outcome, Spent, paid_to}

module _ {W : Type 0} (externals : Externals W) (handler : RewardHandler W)
    (laws : PaysOut externals handler) where
  -- A claim credits its amount to the account, and nothing to other accounts.
  pub record Credited (s t : Claims W) (dest due : ℕ) : Type 0 where
    pub credit :
        laws.existential_deposit ≤ laws.balance s.world dest + due
        → laws.balance t.world dest ≡ laws.balance s.world dest + due
    pub others : (x : ℕ) → x ≢ dest → laws.balance t.world x ≡ laws.balance s.world x

  pub Spent-Credited :
      (s t : Claims W) (signer : EthereumAddress) (dest due : ℕ)
      → Spent externals handler s t signer dest due
      → Credited s t dest due
  Spent-Credited s t signer dest due spent = record {
    credit = λ enough.
        ap (λ (w : W). laws.balance w dest) spent.world
        ∙ balance-world_after externals handler laws s signer dest due dest
        ∙ laws.deposit_credits dest due s.world enough;
    others = λ x ne.
        ap (λ (w : W). laws.balance w x) spent.world
        ∙ balance-world_after externals handler laws s signer dest due x
        ∙ laws.deposit_others dest due x s.world ne;
  }

  -- No stored claim is too small to open an account.
  abbrev pub ArePayable : Claims W → Type 0
  ArePayable s =
      (a : EthereumAddress) (due : ℕ) → get s.claims a ≡ some due → laws.existential_deposit ≤ due

  -- No account has lost anything, and what it has gained is what has been reported as paid to it.
  abbrev pub Reports : Claims W → Claims W → Type 0
  Reports s t =
      (x : ℕ)
      → (laws.balance s.world x ≤ laws.balance t.world x)
        × (laws.balance t.world x - laws.balance s.world x + paid_to x s.events
            ≡ paid_to x t.events)

  Spent-Reports :
      (s t : Claims W) (signer : EthereumAddress) (dest due : ℕ)
      → ArePayable s
      → Spent externals handler s t signer dest due
      → Reports s t
  unfolding paid_to
  Spent-Reports s t signer dest due payable spent x =
      let credited = Spent-Credited s t signer dest due spent in
      elim (Bool-cases (dest == x)) [
        | inl hit ↦
            let same : dest ≡ x = ground arith in
            let enough = payable signer due spent.stored in
            let gained = credited.credit (omega (arith, enough)) in
            rw (spent.events, hit)
              (let gained_x : laws.balance t.world x ≡ laws.balance s.world x + due =
                  subst (λ (y : ℕ). laws.balance t.world y ≡ laws.balance s.world y + due) same
                    gained in
                (omega (arith, gained_x), omega (arith, gained_x)))
        | inr miss ↦
            let kept = credited.others x (ground arith) in
            rw (spent.events, miss) (omega (arith, kept), omega (arith, kept))
      ]

  pub Outcome-Reports :
      (m : DispatchResult (Claims W)) (s : Claims W) (found : Option EthereumAddress) (dest : ℕ)
      → ArePayable s
      → (m s).0 ≡ ok tt
      → Outcome externals handler m s found dest
      → Reports s (m s).1
  Outcome-Reports m s found dest payable h (inl (e, refused)) = absurd (cc (refused, h))
  Outcome-Reports m s found dest payable h (inr (done, signer, it, due, spent)) =
      Spent-Reports s (m s).1 signer dest due payable spent

module _ (config : Config) {W : Type 0} (externals : Externals W) (handler : RewardHandler W) where
  -- A mint pays nothing and reports nothing of it.
  pub mint_claim-keeps :
      (s : Claims W) (o : Origin) (who : EthereumAddress) (value : ℕ) (vs : Option (List Schedule))
      (statement : Option StatementKind)
      → let t = (Calls.mint_claim config externals handler o who value vs statement s).1 in
        (t.world ≡ s.world) × (t.events ≡ s.events)
  unfolding Calls.mint_claim
  mint_claim-keeps s Origin.root who value vs statement = (refl, refl)
  mint_claim-keeps s o who value vs statement = (refl, refl)

  -- Nor does a move.
  pub move_claim-keeps :
      (s : Claims W) (o : Origin) (old new : EthereumAddress) (preclaim : Option ℕ)
      → let t = (Calls.move_claim config externals handler o old new preclaim s).1 in
        (t.world ≡ s.world) × (t.events ≡ s.events)
  unfolding Calls.move_claim
  move_claim-keeps s Origin.root old new preclaim =
      elim (Bool-cases (config.move_claim_origin Origin.root)) [
        | inl admin ↦ rw admin (refl, refl)
        | inr other ↦ rw other (refl, refl)
      ]
  move_claim-keeps s o old new preclaim = elim (Bool-cases (config.move_claim_origin o)) [
    | inl admin ↦ rw admin (refl, refl)
    | inr other ↦ rw other (refl, refl)
  ]

  pub kept-Reports :
      (laws : PaysOut externals handler) (s t : Claims W)
      → (t.world ≡ s.world) × (t.events ≡ s.events)
      → Reports externals handler laws s t
  kept-Reports laws s t (world, events) x = rw (world, events) (omega arith, omega arith)
