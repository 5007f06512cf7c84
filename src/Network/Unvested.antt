-- ===== src/Network/Unvested.antt =====
-- What a payout of xx-team-custody/src/custody.rs does to what xx-economics/src/inflation.rs takes for
-- stakeable, in the runtime of runtime/xxnetwork/src/lib.rs, where the custody pallet is the handler that
-- tells the total custody.
use xxchain.Common.{
  ℕ, ◌+◌, ◌≤◌, ◌<◌, ◌≡◌, ◌≢◌, refl, true, false, some, List, [], ◌∷◌, arith, nat_eq, u128_mod,
  wrapping_add, contains, min,
}
use xxchain.Frame.{Origin, ok}
use xxchain.Frame.Currency.{Currency}
use xxchain.Frame.StorageMap.{get, get-insert_self}
use xxchain.Frame.Perbill.{Perbill}
use xxchain.Custody.Pallet.{CustodyInfo, Config, Externals, Custody, on_world}
use xxchain.Custody.Payout.{is_custody_done, do_payout, amount_due, transferable, increase_vested}
use xxchain.Custody.Calls.{payout}
use xxchain.Custody.Balance
use xxchain.Custody.Balance.{do_payout-Books}
use xxchain.Custody.Received.{Credits, withdrawn_lem, do_payout_credits}
use xxchain.Custody.Square.{withdrawn-le, allocation-le, left-le}
use xxchain.Custody.Schedule.{amount_due-exact}
use xxchain.Custody.Keeps.{InOrder}
use xxchain.Custody.Outside.{LeavesOthers, do_payout-Holds, payout-during}
use xxchain.Economics.Pallet.{Economics}
use xxchain.Economics.Pallet
use xxchain.Economics.Inflation.{compute_total_stakeable, fold_balances}

module _ {W : Type 0} where
  -- The currency, beside the storage of the custody pallet.
  abbrev pub beside_custody : Currency W → Currency (Custody W)
  beside_custody currency = record {
    existential_deposit = currency.existential_deposit;
    free_balance = λ s. currency.free_balance s.world;
    transfer = λ source dest value. on_world (currency.transfer source dest value);
    make_free_balance_be =
        λ who value s. record s { world = currency.make_free_balance_be who value s.world };
  }

  -- `type CustodyHandler = XXCustody`
  abbrev pub custody_handler : Custody W → ℕ
  custody_handler s = s.total_custody

module _ (config : Config) (perbill : Perbill) {W : Type 0} (externals : Externals W)
    (currency : Currency W) where
  module _ (economics : Pallet.Config) where
    -- What is not stakeable: the rewards pool, the custody, the liquidity rewards, the public accounts.
    abbrev pub set_aside : Economics (Custody W) → ℕ
    set_aside e =
        currency.free_balance e.bank.world economics.rewards_account_id
        + e.bank.total_custody
        + e.liquidity_rewards
        + fold_balances economics perbill (beside_custody currency) custody_handler e.bank 0
            economics.public_accounts

    -- `compute_total_stakeable`, with the custody pallet as the handler.
    abbrev pub stakeable : Economics (Custody W) → ℕ → ℕ
    stakeable = compute_total_stakeable economics perbill (beside_custody currency) custody_handler

  module _ (economics : Pallet.Config) (leaves : LeavesOthers config perbill externals currency)
      (credits : Credits config perbill externals currency) (info : CustodyInfo) (who : ℕ) where
    fold_balances-Holds :
        (amount acc : ℕ) (s : Custody W) (xs : List ℕ)
        → contains xs info.custody ≡ false
        → contains xs info.reserve ≡ false
        → contains xs who ≡ false
        → fold_balances economics perbill
            (beside_custody currency)
            custody_handler
            (do_payout config perbill externals who amount info true s).1
            acc
            xs
          ≡ fold_balances economics perbill (beside_custody currency) custody_handler s acc xs
    unfolding fold_balances contains
    fold_balances-Holds amount acc s [] nc nr nw = refl
    fold_balances-Holds amount acc s (x ∷ xs) nc nr nw =
        let same =
          do_payout-Holds config perbill externals currency leaves info who x (ground arith)
            (ground arith) (ground arith) amount (currency.free_balance s.world x) s refl in
        rw same (
          fold_balances-Holds amount (wrapping_add u128_mod acc (currency.free_balance s.world x)) s
            xs (ground arith) (ground arith) (ground arith))

    -- What a payout of `due` from `s` to `t` has done: a positive amount, which is what is due, or all
    -- that the member's two accounts have if that is less, has been paid to the member, is recorded as
    -- paid, has left the total custody, and has become stakeable.
    pub record Unlocked (due issuance : ℕ) (e : Economics (Custody W)) (s t : Custody W)
        : Type 0 where
      pub amount : ℕ
      pub positive : amount ≢ 0
      pub withdrawn :
          amount
          ≡ min due (
              transferable config perbill externals s info.custody true
              + transferable config perbill externals s info.reserve true)
      pub received : currency.free_balance t.world who ≡ currency.free_balance s.world who + amount
      pub recorded :
          (i : CustodyInfo) × (get t.team_accounts who ≡ some i) × (i.vested ≡ info.vested + amount)
      pub left : t.total_custody + amount ≡ s.total_custody
      pub unlocked :
          stakeable economics (record e { bank = t }) issuance
          ≡ stakeable economics (record e { bank = s }) issuance + amount

    do_payout-Unlocks :
        (s : Custody W) (e : Economics (Custody W)) (issuance : ℕ)
        → let due = amount_due config perbill externals info s.block_number in
          let paid = do_payout config perbill externals who due info true s in
          InOrder config perbill externals s
          → s.block_number ≤ config.custody_duration
          → get s.team_accounts who ≡ some info
          → info.custody ≢ who
          → info.reserve ≢ who
          → economics.rewards_account_id ≢ info.custody
          → economics.rewards_account_id ≢ info.reserve
          → economics.rewards_account_id ≢ who
          → contains economics.public_accounts info.custody ≡ false
          → contains economics.public_accounts info.reserve ≡ false
          → contains economics.public_accounts who ≡ false
          → set_aside economics (record e { bank = s }) < u128_mod
          → set_aside economics (record e { bank = s }) ≤ issuance
          → paid.0 ≡ ok tt
          → Unlocked due issuance e s paid.1
    unfolding compute_total_stakeable
    do_payout-Unlocks s e issuance order early stored cw wr nc nr nw pc pr pw range covered h =
        let due = amount_due config perbill externals info s.block_number in
        let w = Balance.withdrawn config perbill externals due info true s in
        let books = do_payout-Books config perbill externals who due info true s h in
        let exact =
          amount_due-exact config perbill externals s who info order.0 order.1 early stored in
        let scheduled = (order.1 who info stored).1 s.block_number early in
        let allocated = allocation-le s who info order.0 stored in
        let small : due < u128_mod = omega (arith, exact, scheduled, allocated, order.0.fits) in
        let within : w ≤ due = withdrawn-le config perbill externals due info s small in
        let left = left-le s who info order.0 stored in
        let pool =
          do_payout-Holds config perbill externals currency leaves info who
            economics.rewards_account_id nc nr nw due
            (currency.free_balance s.world economics.rewards_account_id) s refl in
        let public = fold_balances-Holds due 0 s economics.public_accounts pc pr pw in
        record {
          amount = w;
          positive = books.some_paid refl;
          withdrawn = withdrawn_lem config perbill externals currency due info s small;
          received =
              do_payout_credits config perbill externals currency credits who due info s small cw wr
                h;
          recorded = (
            increase_vested info w,
            rw books.accounts (get-insert_self s.team_accounts who (increase_vested info w)),
            omega (arith, within, exact, scheduled, allocated, order.0.fits),
          );
          left = omega (arith, books.held, within, left, exact, scheduled);
          unlocked =
              omega
                (arith, books.held, within, left, exact, scheduled, pool, public, range, covered);
        }

    -- Before the end of the custody, a payout that succeeds makes what it pays stakeable: a positive
    -- amount, which is what is due, or all that the member's two accounts can give if that is less, is
    -- paid to the member, is recorded as paid, leaves the total custody, and is what the total stakeable
    -- that the era payout is computed from rises by. It is required that the books of the custody are in
    -- order, that the member's two accounts are not the member's own, that neither of the three is the
    -- rewards pool or a public account, that transfers credit their destination and leave other accounts
    -- alone, and that what is not stakeable is in range and within the issuance.
    pub payout-Unlocks :
        (caller : ℕ) (s : Custody W) (e : Economics (Custody W)) (issuance : ℕ)
        → let t = (payout config perbill externals (Origin.signed caller) who s).1 in
          InOrder config perbill externals s
          → get s.team_accounts who ≡ some info
          → is_custody_done config perbill externals s.block_number ≡ false
          → info.custody ≢ who
          → info.reserve ≢ who
          → economics.rewards_account_id ≢ info.custody
          → economics.rewards_account_id ≢ info.reserve
          → economics.rewards_account_id ≢ who
          → contains economics.public_accounts info.custody ≡ false
          → contains economics.public_accounts info.reserve ≡ false
          → contains economics.public_accounts who ≡ false
          → set_aside economics (record e { bank = s }) < u128_mod
          → set_aside economics (record e { bank = s }) ≤ issuance
          → (payout config perbill externals (Origin.signed caller) who s).0 ≡ ok tt
          → Unlocked (amount_due config perbill externals info s.block_number) issuance e s t
    payout-Unlocks caller s e issuance order stored active cw wr nc nr nw pc pr pw range covered h =
        let same =
          payout-during config perbill externals currency caller who info s stored active h in
        rw same (
          do_payout-Unlocks s e issuance order (ground arith) stored cw wr nc nr nw pc pr pw range
            covered (rw same at h))
