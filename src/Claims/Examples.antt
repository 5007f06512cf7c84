-- ===== src/Claims/Examples.antt =====
-- Runs of claims/src/lib.rs on a small state.
use xxchain.Common.{
  ℕ, suc, ◌+◌, ◌*◌, ◌≤◌, ◌≡◌, refl, ◌++◌, false, none, some, List, [], ◌∷◌, arith, take, list_eq,
  list_beq, nat_eq, length, replicate, codes, Bool-cases, inl, inr, ◌-◌, true, ◌==◌,
}
use xxchain.Frame.{Origin, ok, bad_origin}
use xxchain.Frame.Coins.{Balances, put}
use xxchain.Frame.StorageMap.{
  get, insert, empty, empty-IsProper, insert-IsProper, get-insert, get-empty,
}
use xxchain.Frame.StorageMap.Totals.{total-empty, total-insert_le}
use xxchain.Claims.Storage.{
  Config, Claims, EthereumAddress, Externals, RewardHandler, regular, to_text,
}
use xxchain.Claims.Message.{nibble, to_ascii_hex, ethereum_signable_message, digits}
use xxchain.Claims.Process.{process_claim}
use xxchain.Claims.Calls
use xxchain.Claims.Outcome.{paid, paid_to}
use xxchain.Claims.Credited.{ArePayable}
use xxchain.Claims.Process.{settle}
use xxchain.Claims.Calls.{ClaimEntry, GenesisConfig, genesis_build}
use xxchain.Claims.Validity.{Call, claim, mint_claim, run, validate}
use xxchain.Claims.Hex.{All, IsHexDigit, from_hex, to_ascii_hex_lem}
use xxchain.Claims.Signable.{ethereum_signable_message-Binds}
use xxchain.Claims.Paid.{PaysOut, Paid, process_claim-Paid}
use xxchain.Claims.Address.{
  Hex, HexResult, read, failed, IsHexCodec, address, serialize, deserialize, deserialize-serialize,
}
use xxchain.Claims.Books.{InOrder, claimable}
use xxchain.Claims.History.{begin, called, gain, claims-Atomic, History-Balances}
use xxchain.Claims.Attested.{Attests, validate-Attests}
use xxchain.Claims.Moved.{Moved}
use xxchain.Claims.Refinement.{Refines, run-Refines}
use xxchain.Claims.Genesis.{claim_of, genesis_build-Opens}
mod Texts

abbrev alice : EthereumAddress
alice = replicate 20 1

abbrev bob : EthereumAddress
bob = replicate 20 2

-- A hash that keeps 32 bytes, and a recovery that takes the signature for the key.
abbrev test_config : Config
test_config = record {
  prefix = codes "Pay:";
  move_claim_origin = λ o. false;
  encode_account = λ a. a ∷ [];
  keccak_256 = λ bytes. take 32 bytes;
  secp256k1_ecdsa_recover = λ signature message. some signature;
}

-- Accounts that hold coins and have no vesting.
abbrev test_externals : Externals Balances
test_externals = record {
  deposit_creating = λ who value w. put who (w who + value) w;
  vesting_balance = λ w who. none;
  add_vesting_schedule = λ who locked per_block start w. (ok tt, w);
}

abbrev test_handler : RewardHandler Balances
test_handler = record { add_claimed = λ dest due reward w. w }

test_laws : PaysOut test_externals test_handler
test_laws = record {
  balance = λ w who. w who;
  existential_deposit = 1;
  deposit_credits = λ who value w h. ground arith;
  deposit_others = λ who value x w ne. ground arith;
  vesting_keeps = λ who locked per_block start x w. refl;
  handler_keeps = λ dest due reward x w. refl;
}

abbrev test_genesis : GenesisConfig
test_genesis = record {
  claims =
      record { address = alice; value = 50; reward = some 5; account = none; statement = none }
      ∷ record {
        address = bob;
        value = 70;
        reward = none;
        account = some 9;
        statement = some regular;
      }
      ∷ [];
  vesting = [];
}

-- Alice's claim and her reward.
abbrev start : Claims Balances
start = record {
  claims = insert empty alice 50;
  total = 50;
  vesting = empty;
  signing = empty;
  preclaims = insert empty 9 alice;
  rewards = insert empty alice 5;
  events = [];
  world = λ a. 0;
}

start-InOrder : InOrder start
unfolding claimable
start-InOrder = record {
  proper = insert-IsProper empty alice 50 empty-IsProper;
  covered = omega (
    arith,
    total-insert_le (λ (v : ℕ). v) empty alice 50 empty-IsProper,
    total-empty EthereumAddress ℕ (λ (v : ℕ). v),
  );
}

process_claim-Paid_example :
    ((process_claim test_externals test_handler alice 7 start).0 ≡ ok tt)
    × Paid test_externals test_handler test_laws start
        (process_claim test_externals test_handler alice 7 start).1
        alice
        7
        50
unfolding get insert empty list_beq
process_claim-Paid_example =
    process_claim-Paid test_externals test_handler test_laws start alice 7 50 refl (omega arith)
      refl

claims-Atomic_example :
    (run test_config test_externals test_handler (Origin.signed 1) (claim 7 bob) start).1 ≡ start
unfolding run Calls.claim
claims-Atomic_example =
    claims-Atomic test_config test_externals test_handler (Origin.signed 1) (claim 7 bob) start
      bad_origin refl

start-ArePayable : ArePayable test_externals test_handler test_laws start
unfolding test_laws
start-ArePayable a due h = elim (Bool-cases (alice == a)) [
  | inl hit ↦
      let same : some 50 ≡ some due = rw (get-insert, hit) at h in
      let fifty : 50 ≡ due = cc same in omega (arith, fifty)
  | inr miss ↦
      let same : none ≡ some due = rw (get-insert, miss, get-empty) at h in absurd (cc same)
]

-- Account 9 attests and is paid alice's claim.
abbrev settled : Claims Balances
settled = (run test_config test_externals test_handler (Origin.signed 9) (Call.attest []) start).1

History-Balances_example :
    ((x : ℕ)
      → (0
            + gain test_config test_externals test_handler test_laws start settled x
            + paid_to x start.events
          ≡ paid_to x settled.events)
        × (0 + gain test_config test_externals test_handler test_laws settled start x ≡ 0))
    × (paid settled.events + settled.total ≡ paid start.events + start.total + (0 + 0))
    × InOrder settled
    × (paid settled.events + claimable settled.claims ≤ paid start.events + start.total + (0 + 0))
unfolding run Calls.attest Calls.attests process_claim settle get insert empty list_beq
History-Balances_example =
    History-Balances test_config test_externals test_handler test_laws start-InOrder
      (called (Origin.signed 9) (Call.attest []) refl (omega arith) start-ArePayable begin)

run-Refines_example :
    Refines test_config test_externals test_handler test_laws
      (Origin.signed 9)
      (Call.attest [])
      start
      settled
unfolding run Calls.attest Calls.attests process_claim settle get insert empty list_beq
run-Refines_example =
    run-Refines test_config test_externals test_handler test_laws (Origin.signed 9) (Call.attest [])
      start (omega arith) refl

validate-Attests_example :
    Attests test_config test_externals test_handler start 9
      (to_text regular)
      (validate test_config test_externals test_handler start 9 (Call.attest (to_text regular)))
validate-Attests_example =
    validate-Attests test_config test_externals test_handler start 9 (to_text regular)

abbrev genesis_state : Claims Balances
genesis_state = genesis_build test_genesis (λ a. 0)

genesis_build-Opens_example :
    InOrder genesis_state
    × (genesis_state.total ≡ 120)
    × (claimable genesis_state.claims ≡ 120)
    × ((a : EthereumAddress) → get genesis_state.claims a ≡ claim_of test_genesis.claims a)
unfolding list_beq
genesis_build-Opens_example =
    genesis_build-Opens test_genesis (λ a. 0) (refl, (refl, tt)) (omega arith)
