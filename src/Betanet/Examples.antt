-- ===== src/Betanet/Examples.antt =====
-- Runs of xx-betanet-rewards/src/lib.rs on a small state.
use native.Mathlib.Nat.{mul-div_cancel}
use xxchain.Common.{
  ℕ, ◌+◌, ◌-◌, ◌*◌, ◌/◌, ◌<◌, ◌≡◌, ◌≢◌, refl, true, false, none, some, [], arith, list_eq, list_beq,
  nat_eq, min, replicate, u128_mod,
}
use xxchain.Frame.{Origin, ok, Refuses}
use xxchain.Frame.Perbill.{Perbill, billion}
use xxchain.Frame.StorageMap.{get, insert, empty, empty-IsProper, insert-IsProper, get-empty}
use xxchain.Frame.StorageMap.Totals.{total, total-empty, total-insert_new}
use xxchain.Claims.Storage.{Claims, on_world, EthereumAddress}
use xxchain.Claims.Storage
use xxchain.Claims.Process.{process_claim}
use xxchain.Claims.Books.{InOrder, claimable}
use xxchain.Betanet.Options.{
  no_vesting, vesting_9_month, vesting_6_month, UserInfo, default_option, rewards, extra_rewards,
}
use xxchain.Betanet.Pallet
use xxchain.Betanet.Pallet.{Betanet, handler}
use xxchain.Betanet.Enact.{Externals, reward_amount, enact_program, on_initialize}
use xxchain.Betanet.Credited.{boosted}
use xxchain.Betanet.Leftovers.{enact_program-Settles}
use xxchain.Betanet.Shares.{RoundsToNearest, IsShare, reward_amount-IsShare}
use xxchain.Betanet.Program.{permitted, run, Does, select_option, approve, program-Settles}
use xxchain.Betanet.Course.{OnCourse, begin, called, block, History-OnCourse}
use xxchain.Betanet.Registers.{beside, process_claim-Registers}

abbrev nearest : Perbill
nearest = record {
  from_rational = λ a b. min (a * billion / b) billion;
  times = λ r x. (2 * (r * x) + billion) / (2 * billion);
  times_ratio = λ r x. r * x / billion;
  saturating_add = λ a b. min (a + b) billion;
  saturating_sub = λ a b. a - b;
  compute_inflation = λ a b c. min a billion;
}

nearest-RoundsToNearest : RoundsToNearest nearest
nearest-RoundsToNearest = record {
  from_rational_exact = λ a b c e positive small.
      let whole : a * billion / b ≡ c = rw e (mul-div_cancel c positive) in
      rw whole (omega (arith, small));
  times_above = λ r x h. omega arith;
  times_below = λ r x h. omega arith;
}

abbrev test_externals : Externals ℕ
test_externals = record {
  deposit_creating = λ who value b. (value, b + value);
  pair = λ amount b. (amount, amount, b);
  drop_negative = λ amount b. b;
  on_unbalanced = λ amount b. b;
  vesting_balance = λ b who. none;
  add_vesting_schedule = λ who locked per_block start b. (ok tt, b);
}

-- The currency and the vesting pallet as the claims pallet calls them.
abbrev claims_externals : Storage.Externals ℕ
claims_externals = record {
  deposit_creating = λ who value b. b + value;
  vesting_balance = λ b who. none;
  add_vesting_schedule = λ who locked per_block start b. (ok tt, b);
}

abbrev alice : EthereumAddress
alice = replicate 20 1

abbrev member : UserInfo
member = record { principal = 40; reward = 10; option = vesting_6_month }

-- A claim of 50 with a reward of 5, and a member of the program, before the enactment block 100.
abbrev start : Claims (Betanet ℕ)
start = record {
  claims = insert empty alice 50;
  total = 50;
  vesting = empty;
  signing = empty;
  preclaims = empty;
  rewards = insert empty alice 5;
  events = [];
  world = record {
    accounts = insert empty 7 member;
    approved = true;
    block_number = 10;
    events = [];
    bank = 0;
  };
}

start-InOrder : InOrder start
unfolding claimable
start-InOrder = record {
  proper = insert-IsProper empty alice 50 empty-IsProper;
  covered = omega (
    arith,
    total-insert_new (λ (v : ℕ). v) empty alice 50 (get-empty alice),
    total-empty EthereumAddress ℕ (λ (v : ℕ). v),
  );
}

rewards_fit : start.total + total (λ (v : ℕ). v) start.rewards < u128_mod
rewards_fit = omega (
  arith,
  total-insert_new (λ (v : ℕ). v) empty alice 5 (get-empty alice),
  total-empty EthereumAddress ℕ (λ (v : ℕ). v),
)

enact_program-Settles_example :
    let t = enact_program nearest 100 test_externals start in
    InOrder t
    × (t.total ≡ start.total + total (λ (v : ℕ). v) start.rewards)
    × ((a : EthereumAddress) → get t.claims a ≡ boosted (get start.claims a) (get start.rewards a))
    × (t.rewards ≡ empty)
    × (t.world.accounts ≡ empty)
    × (t.events ≡ [])
enact_program-Settles_example =
    enact_program-Settles nearest 100 test_externals start start-InOrder
      (insert-IsProper empty alice 5 empty-IsProper) rewards_fit

-- A reward of 1000 with a vesting of nine months.
reward_amount-IsShare_example :
    IsShare 120 1000
      (reward_amount nearest (record { principal = 0; reward = 1000; option = vesting_9_month }))
reward_amount-IsShare_example =
    reward_amount-IsShare nearest nearest-RoundsToNearest
      (record { principal = 0; reward = 1000; option = vesting_9_month }) (omega arith)

nine_months :
    reward_amount nearest (record { principal = 0; reward = 1000; option = vesting_9_month }) ≡ 1200
unfolding reward_amount rewards extra_rewards
nine_months = refl

program-Settles_example :
    let w = start.world in
    let c = select_option no_vesting in
    (permitted 100 w (Origin.signed 7) c ≡ false → Refuses (run 100 (Origin.signed 7) c) w)
    × (permitted 100 w (Origin.signed 7) c ≡ true
        → ((run 100 (Origin.signed 7) c w).0 ≡ ok tt)
          × Does 100 w (run 100 (Origin.signed 7) c w).1 (Origin.signed 7) c)
program-Settles_example =
    program-Settles 100 start.world (Origin.signed 7) (select_option no_vesting)

-- Root approves, and the enactment block comes.
History-OnCourse_example :
    OnCourse nearest 100 test_externals
      (on_initialize nearest 100 test_externals 100 (
        let s = (on_world (run 100 Origin.root approve) start).1 in
        record s { world = record s.world { block_number = 100 } })).world
unfolding run Pallet.approve
History-OnCourse_example =
    History-OnCourse nearest 100 test_externals {start = start} refl
      (block 100 (omega arith) (called Origin.root approve begin))

process_claim-Registers_example :
    let (r, t) = process_claim (beside claims_externals) (handler 100) alice 8 start in
    (r ≡ ok tt)
    × (get t.world.accounts 8
        ≡ some (record { principal = 50; reward = 5; option = default_option }))
    × ((j : ℕ) → j ≢ 8 → get t.world.accounts j ≡ get start.world.accounts j)
unfolding get insert empty list_beq
process_claim-Registers_example =
    process_claim-Registers claims_externals 100 start alice 8 50 refl (omega arith) refl
