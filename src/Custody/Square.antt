-- ===== src/Custody/Square.antt =====
-- The books of xx-team-custody/src/custody.rs are square: what is under custody is what is allocated
-- and not paid out yet.
use mathlib.Core.Path.{subst}
use xxchain.Common.{
  ℕ, ◌+◌, ◌-◌, ◌*◌, ◌/◌, ◌^◌, ◌≤◌, ◌<◌, ◌≡◌, true, false, some, arith, inl, inr, Bool-cases, ◌==◌,
  nat_eq, u128_mod,
}
use xxchain.Frame.StorageMap.{
  get, insert, remove, get-insert, get-remove, IsProper, insert-IsProper, remove-IsProper,
}
use xxchain.Frame.StorageMap.Totals.{total, total-insert_over, total-remove, total_mono}
use xxchain.Frame.Perbill.{Perbill}
use xxchain.Custody.Pallet.{CustodyInfo, Config, Externals, Custody}
use xxchain.Custody.Payout.{increase_vested, custody_deduct, compute_payout}
use xxchain.Custody.Balance.{withdrawn}

abbrev pub allocation_of : CustodyInfo → ℕ
allocation_of i = i.allocation

abbrev pub vested_of : CustodyInfo → ℕ
vested_of i = i.vested

-- For the members who are stored: what is under custody and what is recorded as paid add up to what is
-- allocated, no record is above the allocation, and all figures are far below the bound of the balance
-- type.
pub record IsSquare {W : Type 0} (s : Custody W) : Type 0 where
  pub proper : IsProper s.team_accounts
  pub square :
      s.total_custody + total vested_of s.team_accounts ≡ total allocation_of s.team_accounts
  pub fits : total allocation_of s.team_accounts < 2 ^ 127
  pub within :
      (who : ℕ) (i : CustodyInfo) → get s.team_accounts who ≡ some i → i.vested ≤ i.allocation

-- The total of one member and of the others.
record Parts {W : Type 0} (s : Custody W) (info : CustodyInfo) : Type 0 where
  others_allocated : ℕ
  others_vested : ℕ
  allocated : info.allocation + others_allocated ≡ total allocation_of s.team_accounts
  vested : info.vested + others_vested ≡ total vested_of s.team_accounts
  ordered : others_vested ≤ others_allocated

parts :
    {W : Type 0} (s : Custody W) (who : ℕ) (info : CustodyInfo)
    → IsSquare s
    → get s.team_accounts who ≡ some info
    → Parts s info
parts s who info sq stored =
    let rest = remove s.team_accounts who in
    record {
      others_allocated = total allocation_of rest;
      others_vested = total vested_of rest;
      allocated = total-remove allocation_of s.team_accounts who sq.proper stored;
      vested = total-remove vested_of s.team_accounts who sq.proper stored;
      ordered =
          total_mono vested_of allocation_of rest (remove-IsProper s.team_accounts who sq.proper)
            (λ k i. rw get-remove (ground (arith, sq.within k i)));
    }

pub allocation-le :
    {W : Type 0} (s : Custody W) (who : ℕ) (info : CustodyInfo)
    → IsSquare s
    → get s.team_accounts who ≡ some info
    → info.allocation ≤ total allocation_of s.team_accounts
allocation-le s who info sq stored = omega (arith, (parts s who info sq stored).allocated)

-- What is left of an allocation is under custody.
pub left-le :
    {W : Type 0} (s : Custody W) (who : ℕ) (info : CustodyInfo)
    → IsSquare s
    → get s.team_accounts who ≡ some info
    → info.allocation - info.vested ≤ s.total_custody
left-le s who info sq stored =
    let p = parts s who info sq stored in omega (arith, sq.square, p.allocated, p.vested, p.ordered)

-- A payment of `w` that does not exceed what is left of the allocation, with the info kept.
pub kept-IsSquare :
    {W : Type 0} (s t : Custody W) (who : ℕ) (info : CustodyInfo) (w : ℕ)
    → IsSquare s
    → get s.team_accounts who ≡ some info
    → info.vested + w ≤ info.allocation
    → t.team_accounts ≡ insert s.team_accounts who (increase_vested info w)
    → t.total_custody ≡ s.total_custody - w
    → IsSquare t
kept-IsSquare s t who info w sq stored le accounts held =
    let p = parts s who info sq stored in
    let info' = increase_vested info w in
    let small : info.allocation < u128_mod = omega (arith, p.allocated, sq.fits) in
    let exact : info'.vested ≡ info.vested + w = omega arith in
    let over_a = total-insert_over allocation_of s.team_accounts who info' sq.proper stored in
    let over_v = total-insert_over vested_of s.team_accounts who info' sq.proper stored in
    record {
      proper = rw accounts (insert-IsProper s.team_accounts who info' sq.proper);
      square =
          rw (accounts, held)
            (omega (arith, over_a, over_v, sq.square, p.allocated, p.vested, p.ordered, exact));
      fits = rw accounts (omega (arith, over_a, sq.fits));
      within = λ k i.
          rw (accounts, get-insert)
            (elim (Bool-cases (who == k)) [
              | inl hit ↦ rw hit (λ e.
                  let same : info' ≡ i = cc in
                  subst (λ (x : CustodyInfo). x.vested ≤ x.allocation) same (omega (arith, exact)))
              | inr miss ↦ rw miss (sq.within k i)
            ]);
    }

-- The last payment removes the member and all that was left of the allocation.
pub gone-IsSquare :
    {W : Type 0} (s t : Custody W) (who : ℕ) (info : CustodyInfo)
    → IsSquare s
    → get s.team_accounts who ≡ some info
    → t.team_accounts ≡ remove s.team_accounts who
    → t.total_custody ≡ s.total_custody - (info.allocation - info.vested)
    → IsSquare t
gone-IsSquare s t who info sq stored accounts held =
    let p = parts s who info sq stored in
    let within = sq.within who info stored in
    let gone_a = total-remove allocation_of s.team_accounts who sq.proper stored in
    let gone_v = total-remove vested_of s.team_accounts who sq.proper stored in
    record {
      proper = rw accounts (remove-IsProper s.team_accounts who sq.proper);
      square =
          rw (accounts, held)
            (omega (arith, gone_a, gone_v, sq.square, within, p.allocated, p.vested, p.ordered));
      fits = rw accounts (omega (arith, gone_a, sq.fits));
      within = λ k i. rw (accounts, get-remove) (ground (arith, sq.within k i));
    }

-- What the last payment deducts is what is left of the allocation, whatever is paid.
pub custody_deduct-last :
    (w : ℕ) (info : CustodyInfo)
    → info.vested ≤ info.allocation
    → info.allocation < 2 ^ 127
    → w < 2 ^ 127
    → custody_deduct false w (increase_vested info w) ≡ info.allocation - info.vested
custody_deduct-last w info le small room =
    let exact : (increase_vested info w).vested ≡ info.vested + w = omega arith in ground arith

module _ (config : Config) (perbill : Perbill) {W : Type 0} (externals : Externals W) where
  -- Before the end of the custody a payout withdraws at most the amount that is asked for.
  pub withdrawn-le :
      (amount : ℕ) (info : CustodyInfo) (s : Custody W)
      → amount < u128_mod
      → withdrawn config perbill externals amount info true s ≤ amount
  withdrawn-le amount info s small = ground arith

  -- What can be withdrawn from two accounts together is far below the bound of the balance type.
  abbrev pub HasRoom : Type 0
  HasRoom =
      (w : W) (a b : ℕ)
      → externals.reducible_balance w a false + externals.reducible_balance w b false < 2 ^ 127

  -- The payouts of an allocation before the end of the custody add up to no more than it.
  abbrev pub IsModest : ℕ → Type 0
  IsModest allocation =
      (block : ℕ)
      → block ≤ config.custody_duration
      → compute_payout config perbill externals allocation * (block / config.payout_frequency)
        ≤ allocation

  pub withdrawn-room :
      (amount : ℕ) (info : CustodyInfo) (s : Custody W)
      → HasRoom
      → withdrawn config perbill externals amount info false s < 2 ^ 127
  withdrawn-room amount info s room = omega (arith, room s.world info.custody info.reserve)
