-- ===== src/Custody/Received.antt =====
-- What a payout of xx-team-custody/src/custody.rs before the end of the custody pays to the member.
use xxchain.Common.{
  ℕ, ◌+◌, ◌<◌, ◌≡◌, ◌≢◌, refl, ap, ◌∙◌, true, arith, inl, inr, Bool-cases, ◌==◌, min, nat_eq,
  u128_mod,
}
use xxchain.Frame.{ok, DispatchResult, ◌>>◌, bind-inversion}
use xxchain.Frame.Currency.{Currency}
use xxchain.Frame.Perbill.{Perbill}
use xxchain.Custody.Pallet.{
  payout_from_custody, payout_from_reserve, CustodyInfo, Event, Config, Externals, Custody,
  on_world, deposit_event,
}
use xxchain.Custody.Payout.{withdrawals, transferable, pay, do_payout}
use xxchain.Custody.Balance.{withdrawn, conclude}

module _ (config : Config) (perbill : Perbill) {W : Type 0} (externals : Externals W)
    (currency : Currency W) where
  abbrev balance : Custody W → ℕ → ℕ
  balance s x = currency.free_balance s.world x

  -- A transfer that succeeds credits the destination.
  abbrev pub Credits : Type 0
  Credits =
      (source dest value : ℕ) (w : W)
      → source ≢ dest
      → (externals.transfer source dest value w).0 ≡ ok tt
      → currency.free_balance (externals.transfer source dest value w).1 dest
        ≡ currency.free_balance w dest + value

  pay_credits :
      Credits
      → (source who amount : ℕ) (event : Event) (s : Custody W) → source ≢ who
      → (pay config perbill externals source who amount event s).0 ≡ ok tt
      → balance (pay config perbill externals source who amount event s).1 who
        ≡ balance s who + amount
  pay_credits credits source who amount event s ne = elim (Bool-cases (amount == 0)) [
    | inl nothing ↦ rw nothing (λ h. ground arith)
    | inr something ↦ rw something (λ h.
        let report : DispatchResult (Custody W) = deposit_event event in
        let (u, done, next) =
          bind-inversion (on_world (externals.transfer source who amount)) (λ _. report) s h in
        rw next (credits source who amount s.world ne done))
  ]

  conclude_world :
      (who : ℕ) (info : CustodyInfo) (w : ℕ) (s : Custody W)
      → (conclude config perbill externals who info true w s).1.world ≡ s.world
  conclude_world who info w s = elim (Bool-cases (w == 0)) [
    | inl nothing ↦ rw nothing refl
    | inr something ↦ rw something refl
  ]

  -- What is withdrawn is the amount, or all that the two accounts have if that is less.
  pub withdrawn_lem :
      (amount : ℕ) (info : CustodyInfo) (s : Custody W)
      → amount < u128_mod
      → withdrawn config perbill externals amount info true s
        ≡ min amount (
            transferable config perbill externals s info.custody true
            + transferable config perbill externals s info.reserve true)
  withdrawn_lem amount info s small = omega (arith, small)

  -- A payout that succeeds pays what it withdraws to the member.
  pub do_payout_credits :
      Credits
      → (who amount : ℕ) (info : CustodyInfo) (s : Custody W) → amount < u128_mod
      → info.custody ≢ who
      → info.reserve ≢ who
      → (do_payout config perbill externals who amount info true s).0 ≡ ok tt
      → balance (do_payout config perbill externals who amount info true s).1 who
        ≡ balance s who + withdrawn config perbill externals amount info true s
  unfolding do_payout
  do_payout_credits credits who amount info s small nc nr h =
      let from =
        withdrawals true amount (transferable config perbill externals s info.custody true)
          (transferable config perbill externals s info.reserve true) in
      let w = withdrawn config perbill externals amount info true s in
      let pay_custody =
        pay config perbill externals info.custody who from.0 (payout_from_custody who from.0) in
      let pay_reserve =
        pay config perbill externals info.reserve who from.1 (payout_from_reserve who from.1) in
      let rest = conclude config perbill externals who info true w in
      let (u1, ok1, next1) = bind-inversion pay_custody (λ _. pay_reserve >> rest) s h in
      let s1 = (pay_custody s).1 in
      let h1 : ((pay_reserve >> rest) s1).0 ≡ ok tt = rw next1 at h in
      let (u2, ok2, next2) = bind-inversion pay_reserve (λ _. rest) s1 h1 in
      let s2 = (pay_reserve s1).1 in
      let first =
        pay_credits credits info.custody who from.0 (payout_from_custody who from.0) s nc ok1 in
      let second =
        pay_credits credits info.reserve who from.1 (payout_from_reserve who from.1) s1 nr ok2 in
      let last = ap (λ (x : W). currency.free_balance x who) (conclude_world who info w s2) in
      rw (next1 ∙ next2) (last ∙ omega (arith, first, second, small))
