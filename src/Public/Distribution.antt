-- ===== src/Public/Distribution.antt =====
-- What a distribution of xx-public/src/lib.rs moves.
use xxchain.Common.{
  ℕ, ◌+◌, ◌-◌, ◌≤◌, ◌<◌, ◌≡◌, ◌≢◌, refl, sym, ap, ◌∙◌, false, Option, none, some, List, [], ◌∷◌,
  arith, inl, inr, Bool-cases, leb, ◌==◌, nat_eq, u128_mod, wrapping_add, if◌then◌else◌,
}
use xxchain.Frame.{Result, ok, err, xx_public, not_enough_funds, bind-inversion, try_for_each}
use xxchain.Frame.Currency.{Currency, IsLawful, LeavesRest, Vesting, KeepsBalances}
use xxchain.Public.Pallet.{
  Schedule, TransferData, fold_amounts, add_schedules, add_optional, distribute_one,
  do_distribution,
}

-- The sum of all amounts, without a bound.
unfoldable pub total_amount : List TransferData → ℕ
total_amount [] = 0
total_amount (x ∷ xs) = x.amount + total_amount xs

-- What goes to one account.
unfoldable pub amount_to : ℕ → List TransferData → ℕ
amount_to a [] = 0
amount_to a (x ∷ xs) = (if x.destination == a then x.amount else 0) + amount_to a xs

-- No transfer goes back to the account that pays.
abbrev pub AllOthers : ℕ → List TransferData → Type 0
AllOthers account [] = Unit
AllOthers account (x ∷ xs) = (account ≢ x.destination) × AllOthers account xs

pub fold_amounts-total :
    (acc : ℕ) (xs : List TransferData)
    → acc + total_amount xs < u128_mod
    → fold_amounts acc xs ≡ acc + total_amount xs
unfolding fold_amounts total_amount
fold_amounts-total acc [] h = omega arith
fold_amounts-total acc (x ∷ xs) h =
    let small : wrapping_add u128_mod acc x.amount ≡ acc + x.amount = omega arith in
    rw small (fold_amounts-total (acc + x.amount) xs (omega arith) ∙ omega arith)

module _ {Bank : Type 0} (currency : Currency Bank) where
  open currency use {free_balance, existential_deposit}

  -- The amounts have moved from the account to the destinations, and nothing else has moved.
  pub record Distributed (account : ℕ) (xs : List TransferData) (b c : Bank) : Type 0 where
    pub covered : total_amount xs ≤ free_balance b account
    pub left :
        LeavesRest existential_deposit
          (free_balance b account - total_amount xs)
          (free_balance c account)
    pub received : (x : ℕ) → account ≢ x → free_balance c x ≡ free_balance b x + amount_to x xs

module _ {Bank : Type 0} (currency : Currency Bank) (vesting : Vesting Bank) where
  -- A distribution whose amounts add up to more than the account holds, but not to more than 128
  -- bits, fails before anything is paid or locked.
  pub do_distribution-short :
      (account : ℕ) (xs : List TransferData) (b : Bank)
      → currency.free_balance b account < total_amount xs
      → total_amount xs < u128_mod
      → do_distribution currency vesting account xs b ≡ (err (xx_public not_enough_funds), b)
  unfolding do_distribution
  do_distribution-short account xs b short small =
      let counted : leb (fold_amounts 0 xs) (currency.free_balance b account) ≡ false =
        rw (fold_amounts-total 0 xs (omega arith)) (ground arith) in
      rw (counted, do_distribution) refl

module _ {Bank : Type 0} (currency : Currency Bank) (vesting : Vesting Bank)
    (lawful : IsLawful currency) (keeps : KeepsBalances currency vesting) where
  open currency use {free_balance, existential_deposit}

  add_schedules-balance :
      (who : ℕ) (vs : List Schedule) (x : ℕ) (b : Bank)
      → free_balance (add_schedules currency vesting who vs b) x ≡ free_balance b x
  unfolding add_schedules
  add_schedules-balance who [] x b = refl
  add_schedules-balance who (v ∷ vs) x b =
      add_schedules-balance who vs x (vesting.add_vesting_schedule who v.0 v.1.0 v.1.1 b).1
      ∙ keeps.vesting_keeps who v.0 v.1.0 v.1.1 x b

  add_optional-balance :
      (who : ℕ) (o : Option (List Schedule)) (x : ℕ) (b : Bank)
      → free_balance (add_optional currency vesting who o b).1 x ≡ free_balance b x
  unfolding add_optional
  add_optional-balance who none x b = refl
  add_optional-balance who (some vs) x b = add_schedules-balance who vs x b

  rest_kept :
      (rest rest' held held' : ℕ)
      → held ≡ held'
      → rest ≡ rest'
      → LeavesRest existential_deposit rest held
      → LeavesRest existential_deposit rest' held'
  rest_kept rest rest' held held' e f h = ground arith

  one-Distributed :
      (account : ℕ) (d : TransferData) (b : Bank)
      → account ≢ d.destination
      → (distribute_one currency vesting account d b).0 ≡ ok tt
      → Distributed currency account (d ∷ []) b (distribute_one currency vesting account d b).1
  unfolding total_amount amount_to
  one-Distributed account d b ne h =
      let (u, paid, next) =
        bind-inversion (currency.transfer account d.destination d.amount)
          (λ _. add_optional currency vesting d.destination d.schedules) b h in
      let paid_out = currency.transfer account d.destination d.amount b in
      let same : (x : ℕ)
          → free_balance (distribute_one currency vesting account d b).1 x
            ≡ free_balance paid_out.1 x =
        λ x.
          ap (λ (r : Result (Unit {0}) × Bank). free_balance r.1 x) next
          ∙ add_optional-balance d.destination d.schedules x paid_out.1 in
      let covered = lawful.transfer_covered account d.destination d.amount b ne paid in
      record {
        covered = omega (arith, covered);
        left =
            rest_kept _ _ _ _ (sym (same account)) (omega arith)
              (lawful.transfer_debits account d.destination d.amount b ne paid);
        received = λ x nx. same x ∙ elim (Bool-cases (d.destination == x)) [
          | inl hit ↦
              ground (arith, lawful.transfer_credits account d.destination d.amount b ne paid)
          | inr miss ↦
              let apart : x ≢ d.destination = ground arith in
              ground (
                arith,
                lawful.transfer_others account d.destination d.amount x b (λ e. nx (sym e)) apart,
              )
        ];
      }

  cons-Distributed :
      (account : ℕ) (d : TransferData) (xs : List TransferData) (b m c : Bank)
      → Distributed currency account (d ∷ []) b m
      → Distributed currency account xs m c
      → Distributed currency account (d ∷ xs) b c
  unfolding total_amount amount_to
  cons-Distributed account d xs b m c one rest =
      let one_left = one.left in
      let rest_left = rest.left in
      record {
        covered = ground (arith, one.covered, rest.covered);
        left = ground (arith, one.covered, rest.covered);
        received = λ x nx. omega (arith, one.received x nx, rest.received x nx);
      }

  all-Distributed :
      (account : ℕ) (xs : List TransferData) (b : Bank)
      → AllOthers account xs
      → (try_for_each (distribute_one currency vesting account) xs b).0 ≡ ok tt
      → Distributed currency account xs b
          (try_for_each (distribute_one currency vesting account) xs b).1
  unfolding total_amount amount_to
  all-Distributed account [] b others h = record {
    covered = omega arith;
    left = inl (omega arith);
    received = λ x nx. omega arith;
  }
  all-Distributed account (d ∷ xs) b (other, others) h =
      let rest = try_for_each (distribute_one currency vesting account) xs in
      let (u, first_ok, next) =
        bind-inversion (distribute_one currency vesting account d) (λ _. rest) b h in
      let m = (distribute_one currency vesting account d b).1 in
      rw next (
        cons-Distributed account d xs b m (rest m).1 (one-Distributed account d b other first_ok)
          (all-Distributed account xs m others (rw next at h)))

  -- With enough funds for all amounts together, on 128 bits, and no transfer back to the account
  -- that pays, a distribution that succeeds has moved exactly the listed amounts: the account had
  -- them all and has lost them all, and every other account has received the sum of what is listed
  -- for it and nothing else, whatever happens to the vesting schedules.
  pub do_distribution-Distributed :
      (account : ℕ) (xs : List TransferData) (b : Bank)
      → AllOthers account xs
      → (do_distribution currency vesting account xs b).0 ≡ ok tt
      → Distributed currency account xs b (do_distribution currency vesting account xs b).1
  unfolding do_distribution
  do_distribution-Distributed account xs b others h =
      elim (Bool-cases (leb (fold_amounts 0 xs) (free_balance b account))) [
        | inl enough ↦
            rw (enough, do_distribution)
              (all-Distributed account xs b others (rw (enough, do_distribution) at h))
        | inr short ↦ absurd (cc (rw (short, do_distribution) at h))
      ]
