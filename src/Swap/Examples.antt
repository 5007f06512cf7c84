-- ===== src/Swap/Examples.antt =====
-- Runs of swap/src/lib.rs on a small currency.
use xxchain.Common.{
  ◌+◌, ◌*◌, ◌≤◌, refl, false, some, [], ◌∷◌, arith, pair_eq, nat_eq, list_eq, contains,
}
use xxchain.Frame.{Origin}
use xxchain.Frame.StorageMap.{get, insert, empty}
use xxchain.Frame.Coins.{Balances, put, coins, coins-IsLawful}
use xxchain.Chainbridge.Storage.{initial, is_whitelisted}
use xxchain.Chainbridge.Voting.{ensure_bridge}
use xxchain.Chainbridge.Transfers.{transfer_fungible}
use xxchain.Swap.Pallet.{Config, Swap, transfer_native}
use xxchain.Swap.Moved.{Moved}
use xxchain.Swap.Native.{transfer_native-Moved}
use xxchain.Swap.Authority
use xxchain.Swap.Authority.{run}
use xxchain.Swap.Pallet
use xxchain.Swap.Steps.{run-Steps}
use xxchain.Swap.Vault.{Step, release, vault, sum, IsApart, History, begin, called}
use xxchain.Swap.Backing.{History-IsBacked}
use xxchain.Swap.Genesis.{GenesisConfig}
use xxchain.Swap.Genesis.Start.{Starts, genesis_build-Starts}

abbrev test_config : Config
test_config = record {
  bridge = record {
    chain_id = 1;
    proposal_lifetime = 50;
    account_id = 999;
    admin_origin = λ o. false;
  };
  native_token_id = 8 ∷ [];
  admin_origin = λ o. false;
}

-- Account 5 holds 1000; the fee of 30 goes to account 6.
abbrev market : Swap Balances
market = record {
  bridge = record initial { chain_nonces = insert initial.chain_nonces 2 7 };
  bank = put 5 1000 (λ a. 0);
  swap_fee = 30;
  fee_destination = some 6;
  events = [];
}

transfer_native-Moved_example :
    Moved coins test_config 5 100
      (3 ∷ [])
      2
      market
      (transfer_native test_config coins (Origin.signed 5) 100 (3 ∷ []) 2 market).1
unfolding transfer_native transfer_fungible is_whitelisted get insert empty
transfer_native-Moved_example =
    transfer_native-Moved coins coins-IsLawful test_config 5 100 (3 ∷ []) 2 market (omega arith)
      (omega arith) (omega arith) (omega arith) refl

-- Account 5 sends 100 over the bridge, which pays 40 of them to account 7.
abbrev locked : Swap Balances
locked =
    (run test_config coins (Origin.signed 5) (Authority.transfer_native 100 (3 ∷ []) 2) market).1

abbrev paid_back : Swap Balances
paid_back = (run test_config coins (Origin.signed 999) (Authority.transfer 7 40) locked).1

round_trip : History test_config coins market (40 ∷ []) paid_back
unfolding Pallet.transfer_native Pallet.transfer run transfer_fungible is_whitelisted get insert
    empty ensure_bridge
round_trip = called (Origin.signed 999) (Authority.transfer 7 40) tt (
    called (Origin.signed 5) (Authority.transfer_native 100 (3 ∷ []) 2) (λ e. cc e, omega arith)
      begin)

History-IsBacked_example :
    let v = vault test_config coins market in
    let w = vault test_config coins paid_back in
    IsApart test_config coins paid_back
    × (w.held + sum (40 ∷ []) + v.sent ≤ v.held + w.sent)
    × (v.held + w.sent ≤ w.held + sum (40 ∷ []) + v.sent + 1 * 1)
History-IsBacked_example =
    History-IsBacked test_config coins coins-IsLawful (omega arith) round_trip

run-Steps_example :
    Step 1 (vault test_config coins locked) (release 40) (vault test_config coins paid_back)
unfolding Pallet.transfer_native Pallet.transfer run transfer_fungible is_whitelisted get insert
    empty ensure_bridge
run-Steps_example =
    run-Steps test_config coins coins-IsLawful (Origin.signed 999) (Authority.transfer 7 40) locked
      tt (omega arith)

abbrev test_genesis : GenesisConfig
test_genesis = record {
  swap_fee = 30;
  chains = 2 ∷ 3 ∷ [];
  relayers = 11 ∷ 12 ∷ [];
  resources = (8 ∷ [], 1 ∷ []) ∷ [];
  threshold = 2;
  balance = 5000;
  fee_destination = some 6;
}

genesis_build-Starts_example : Starts test_config.bridge coins test_genesis (λ a. 0)
unfolding contains
genesis_build-Starts_example =
    genesis_build-Starts test_config.bridge coins test_genesis (λ a. 0) (refl, (refl, tt)) refl
      (refl, (refl, tt)) (omega arith)
