-- ===== src/Custody/Balance.antt =====
-- What a payout of xx-team-custody/src/custody.rs writes.
use xxchain.Common.{
  ℕ, ◌-◌, ◌≡◌, ◌≢◌, refl, ap, ◌∙◌, Bool, true, false, ◌&&◌, not, arith, inl, inr, Bool-cases, ◌==◌,
  nat_eq, u128_mod, wrapping_add,
}
use xxchain.Frame.{
  Result, ok, err, xx_custody, payout_failed_insufficient_funds, DispatchResult, ensure, modify,
  ◌>>◌, bind-inversion,
}
use xxchain.Frame.StorageMap.{StorageMap, insert, remove}
use xxchain.Frame.Perbill.{Perbill}
use xxchain.Custody.Pallet.{
  CustodyInfo, Event, payout_from_custody, payout_from_reserve, Config, Externals, Custody,
  on_world, deposit_event,
}
use xxchain.Custody.Payout.{
  withdrawals, increase_vested, custody_deduct, store_info, pay, transferable, do_payout,
}

module _ {W : Type 0} where
  -- The books are as before: only events and the state of other pallets may differ.
  pub record SameBooks (s t : Custody W) : Type 0 where
    pub accounts : t.team_accounts ≡ s.team_accounts
    pub held : t.total_custody ≡ s.total_custody
    pub time : t.block_number ≡ s.block_number

  pub SameBooks-refl : (s : Custody W) → SameBooks s s
  SameBooks-refl s = record { accounts = refl; held = refl; time = refl }

  pub SameBooks-trans : (s t u : Custody W) → SameBooks s t → SameBooks t u → SameBooks s u
  SameBooks-trans s t u a b = record {
    accounts = b.accounts ∙ a.accounts;
    held = b.held ∙ a.held;
    time = b.time ∙ a.time;
  }

module _ (config : Config) (perbill : Perbill) {W : Type 0} (externals : Externals W) where
  pay-SameBooks :
      (source who amount : ℕ) (event : Event) (s : Custody W)
      → SameBooks s (pay config perbill externals source who amount event s).1
  pay-SameBooks source who amount event s = elim (Bool-cases (amount == 0)) [
    | inl nothing ↦ rw nothing (SameBooks-refl s)
    | inr something ↦ rw something (
        go (externals.transfer source who amount s.world).0
          (externals.transfer source who amount s.world).1)
  ]
    where
      go :
          (r : Result (Unit {0})) (w : W)
          → let after : DispatchResult W = λ _. (r, w) in
            SameBooks s ((on_world after >> deposit_event event) s).1
      go (ok _) w = record { accounts = refl; held = refl; time = refl }
      go (err e) w = record { accounts = refl; held = refl; time = refl }

  -- What a payout withdraws from a state.
  abbrev pub withdrawn : ℕ → CustodyInfo → Bool → Custody W → ℕ
  withdrawn amount info keep_alive s =
      let from =
        withdrawals keep_alive amount
          (transferable config perbill externals s info.custody keep_alive)
          (transferable config perbill externals s info.reserve keep_alive) in
      wrapping_add u128_mod from.0 from.1

  -- A payout that succeeds has written the info and the total custody, and before the end of the
  -- custody it has paid something.
  pub record Books (who amount : ℕ) (info : CustodyInfo) (keep_alive : Bool) (s t : Custody W)
      : Type 0 where
    pub accounts :
        t.team_accounts
        ≡ (store_info keep_alive who
            (increase_vested info (withdrawn amount info keep_alive s))
            s).team_accounts
    pub held :
        t.total_custody
        ≡ s.total_custody
          - custody_deduct keep_alive
              (withdrawn amount info keep_alive s)
              (increase_vested info (withdrawn amount info keep_alive s))
    pub time : t.block_number ≡ s.block_number
    pub some_paid : keep_alive ≡ true → withdrawn amount info keep_alive s ≢ 0

  -- Steps 6 and 7 of `do_payout`.
  abbrev pub conclude : ℕ → CustodyInfo → Bool → ℕ → DispatchResult (Custody W)
  conclude who info keep_alive w =
      ensure (not (keep_alive && w == 0)) (xx_custody payout_failed_insufficient_funds)
      >> (modify (λ s. record s {
        total_custody = s.total_custody - custody_deduct keep_alive w (increase_vested info w);
      })
          >> modify (store_info keep_alive who (increase_vested info w)))

  conclude-Books :
      (who amount : ℕ) (info : CustodyInfo) (keep_alive : Bool) (s s2 : Custody W)
      → SameBooks s s2
      → let w = withdrawn amount info keep_alive s in
        (conclude who info keep_alive w s2).0 ≡ ok tt
        → Books who amount info keep_alive s (conclude who info keep_alive w s2).1
  conclude-Books who amount info true s s2 same h =
      let w = withdrawn amount info true s in
      elim (Bool-cases (w == 0)) [
        | inl nothing ↦ absurd (cc (rw nothing at h))
        | inr something ↦ rw something (record {
          accounts =
              ap (λ (m : StorageMap ℕ CustodyInfo). insert m who (increase_vested info w))
                same.accounts;
          held = ap (λ (n : ℕ). n - w) same.held;
          time = same.time;
          some_paid = λ _. ground arith;
        })
      ]
  conclude-Books who amount info false s s2 same h =
      let w = withdrawn amount info false s in
      record {
        accounts = ap (λ (m : StorageMap ℕ CustodyInfo). remove m who) same.accounts;
        held = ap (λ (n : ℕ). n - custody_deduct false w (increase_vested info w)) same.held;
        time = same.time;
        some_paid = λ e. cc;
      }

  pub do_payout-Books :
      (who amount : ℕ) (info : CustodyInfo) (keep_alive : Bool) (s : Custody W)
      → (do_payout config perbill externals who amount info keep_alive s).0 ≡ ok tt
      → Books who amount info keep_alive s
          (do_payout config perbill externals who amount info keep_alive s).1
  unfolding do_payout
  do_payout-Books who amount info keep_alive s h =
      let from =
        withdrawals keep_alive amount
          (transferable config perbill externals s info.custody keep_alive)
          (transferable config perbill externals s info.reserve keep_alive) in
      let w = withdrawn amount info keep_alive s in
      let pay_custody =
        pay config perbill externals info.custody who from.0 (payout_from_custody who from.0) in
      let pay_reserve =
        pay config perbill externals info.reserve who from.1 (payout_from_reserve who from.1) in
      let rest = conclude who info keep_alive w in
      let (u1, ok1, next1) = bind-inversion pay_custody (λ _. pay_reserve >> rest) s h in
      let s1 = (pay_custody s).1 in
      let h1 : ((pay_reserve >> rest) s1).0 ≡ ok tt = rw next1 at h in
      let (u2, ok2, next2) = bind-inversion pay_reserve (λ _. rest) s1 h1 in
      let s2 = (pay_reserve s1).1 in
      let h2 : (rest s2).0 ≡ ok tt = rw next2 at h1 in
      let same =
        SameBooks-trans s s1 s2
          (pay-SameBooks info.custody who from.0 (payout_from_custody who from.0) s)
          (pay-SameBooks info.reserve who from.1 (payout_from_reserve who from.1) s1) in
      rw (next1 ∙ next2) (conclude-Books who amount info keep_alive s s2 same h2)
