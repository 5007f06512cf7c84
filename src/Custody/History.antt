-- ===== src/Custody/History.antt =====
-- The books of xx-team-custody over its whole history.
use native.Mathlib.Nat.{mul-le-mul_left, le-div_iff_mul-le, div-mul-le_self}
use xxchain.Common.{ℕ, ◌+◌, ◌/◌, ◌^◌, ◌≤◌, ◌<◌, ◌≡◌, [], none, arith, nat_eq}
use xxchain.Frame.{Origin, ok, DispatchResult}
use xxchain.Frame.StorageMap.{get, empty, get-empty, empty-IsProper}
use xxchain.Frame.StorageMap.Totals.{total, total-empty}
use xxchain.Frame.Perbill.{Perbill, IsPerbill}
use xxchain.Custody.Pallet.{Config, Externals, Custody, CustodyInfo}
use xxchain.Custody.Payout.{compute_payout}
use xxchain.Custody.Calls.{initialize_custody}
use xxchain.Custody.Calls
use xxchain.Custody.Square.{allocation_of, vested_of, HasRoom, IsModest}
use xxchain.Custody.Schedule.{scheduled}
use xxchain.Custody.Keeps.{InOrder, same-InOrder, payout-InOrder}
use xxchain.Custody.Same.{
  Still, custody_bond-Still, custody_bond_extra-Still, custody_set_controller-Still,
  custody_set_proxy-Still, team_custody_set_proxy-Still, add_custodian-Still,
  remove_custodian-Still,
}
use xxchain.Custody.Members.{initialize_custody-InOrder, replace_team_member-InOrder}

-- `enum Call`.
pub data Call : Type 0 where
  payout : ℕ → Call
  custody_bond : ℕ → ℕ → ℕ → Call
  custody_bond_extra custody_set_controller custody_set_proxy : ℕ → ℕ → Call
  team_custody_set_proxy add_custodian remove_custodian : ℕ → Call
  replace_team_member : ℕ → ℕ → Call

-- The storage before genesis.
abbrev pub before : {W : Type 0} → W → Custody W
before w = record {
  team_accounts = empty;
  custody_accounts = empty;
  custodians = empty;
  total_custody = 0;
  block_number = 0;
  events = [];
  world = w;
}

module _ (config : Config) (perbill : Perbill) {W : Type 0} (externals : Externals W) where
  unfoldable pub run : Origin → Call → DispatchResult (Custody W)
  run o (payout who) = Calls.payout config perbill externals o who
  run o (custody_bond custody controller value) =
      Calls.custody_bond config perbill externals o custody controller value
  run o (custody_bond_extra custody value) =
      Calls.custody_bond_extra config perbill externals o custody value
  run o (custody_set_controller custody controller) =
      Calls.custody_set_controller config perbill externals o custody controller
  run o (custody_set_proxy custody proxy) =
      Calls.custody_set_proxy config perbill externals o custody proxy
  run o (team_custody_set_proxy proxy) =
      Calls.team_custody_set_proxy config perbill externals o proxy
  run o (add_custodian who) = Calls.add_custodian config perbill externals o who
  run o (remove_custodian who) = Calls.remove_custodian config perbill externals o who
  run o (replace_team_member who new) = Calls.replace_team_member config perbill externals o who new

  -- What happened up to a state. A call that fails is rolled back by the runtime and leaves no trace.
  pub data History : Custody W → Type 0 where
    begin : (w : W) → History (before w)
    -- a member of the genesis configuration, as the genesis build adds them one by one
    member :
        {s : Custody W} (who amount : ℕ)
        → get s.team_accounts who ≡ none
        → amount + total allocation_of s.team_accounts < 2 ^ 127
        → IsModest config perbill externals amount
        → History s
        → History (initialize_custody config perbill externals who amount s)
    called :
        {s : Custody W} (o : Origin) (c : Call)
        → (run o c s).0 ≡ ok tt
        → History s
        → History (run o c s).1
    -- A later block; what other pallets do to their own state is arbitrary.
    block :
        {s : Custody W} (n : ℕ) (w : W)
        → s.block_number ≤ n
        → History s
        → History (record s { block_number = n; world = w })

  before-InOrder : (w : W) → InOrder config perbill externals (before w)
  before-InOrder w = (
    record {
      proper = empty-IsProper;
      square =
          omega
            (arith, total-empty ℕ CustodyInfo vested_of, total-empty ℕ CustodyInfo allocation_of);
      fits = omega (arith, total-empty ℕ CustodyInfo allocation_of);
      within = λ k i. rw get-empty (λ e. cc);
    },
    λ k i. rw get-empty (λ e. cc),
  )

  scheduled_mono :
      (info : CustodyInfo) (m n : ℕ)
      → 0 < config.payout_frequency
      → m ≤ n
      → scheduled config perbill externals info m ≤ scheduled config perbill externals info n
  scheduled_mono info m n positive le =
      let f = config.payout_frequency in
      let chunks : m / f ≤ n / f =
        (le-div_iff_mul-le positive).1 (omega (arith, div-mul-le_self m f)) in
      mul-le-mul_left (compute_payout config perbill externals info.allocation) chunks

  Still-InOrder :
      (m : DispatchResult (Custody W)) (s : Custody W)
      → Still m
      → InOrder config perbill externals s
      → InOrder config perbill externals (m s).1
  Still-InOrder m s still order = same-InOrder config perbill externals s (m s).1 (still.at s) order

  run-InOrder :
      (o : Origin) (c : Call) (s : Custody W)
      → HasRoom config perbill externals
      → InOrder config perbill externals s
      → (run o c s).0 ≡ ok tt
      → InOrder config perbill externals (run o c s).1
  unfolding run
  run-InOrder o (payout who) s room order h =
      payout-InOrder config perbill externals o who s room order h
  run-InOrder o (custody_bond custody controller value) s room order h =
      Still-InOrder _ s (custody_bond-Still config perbill externals o custody controller value)
        order
  run-InOrder o (custody_bond_extra custody value) s room order h =
      Still-InOrder _ s (custody_bond_extra-Still config perbill externals o custody value) order
  run-InOrder o (custody_set_controller custody controller) s room order h =
      Still-InOrder _ s (custody_set_controller-Still config perbill externals o custody controller)
        order
  run-InOrder o (custody_set_proxy custody proxy) s room order h =
      Still-InOrder _ s (custody_set_proxy-Still config perbill externals o custody proxy) order
  run-InOrder o (team_custody_set_proxy proxy) s room order h =
      Still-InOrder _ s (team_custody_set_proxy-Still config perbill externals o proxy) order
  run-InOrder o (add_custodian who) s room order h =
      Still-InOrder _ s (add_custodian-Still config perbill externals o who) order
  run-InOrder o (remove_custodian who) s room order h =
      Still-InOrder _ s (remove_custodian-Still config perbill externals o who) order
  run-InOrder o (replace_team_member who new) s room order h =
      replace_team_member-InOrder config perbill externals o who new s order

  -- From genesis, with members that are all different, allocations that add up to far less than the
  -- bound of the balance type, and for each of them payouts on schedule that add up to no more than it
  -- before the end of the custody, whatever calls succeed and blocks follow: the books of the members who
  -- are still stored are in order. The total under custody and what is recorded as paid to these members
  -- add up to what is allocated to them, and none of these records is above the allocation or above what the
  -- schedule gives at the block; as long as withdrawals stay far below that bound.
  pub History-InOrder :
      IsPerbill perbill
      → HasRoom config perbill externals
      → 0 < config.payout_frequency
      → {s : Custody W} → History s
      → InOrder config perbill externals s
  History-InOrder laws room positive (begin w) = before-InOrder w
  History-InOrder laws room positive (member {s = s} who amount new small modest h) =
      initialize_custody-InOrder config perbill externals who amount s laws
        (History-InOrder laws room positive h) new small modest
  History-InOrder laws room positive (called {s = s} o c done h) =
      run-InOrder o c s room (History-InOrder laws room positive h) done
  History-InOrder laws room positive (block {s = s} n w le h) =
      let (sq, sched) = History-InOrder laws room positive h in
      (
        record { proper = sq.proper; square = sq.square; fits = sq.fits; within = sq.within },
        λ k i stored. (
          omega (arith, (sched k i stored).0, scheduled_mono i s.block_number n positive le),
          (sched k i stored).1,
        ),
      )
