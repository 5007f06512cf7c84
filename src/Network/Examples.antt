-- ===== src/Network/Examples.antt =====
-- Runs of the runtime of runtime/xxnetwork/src/lib.rs: a transfer that arrives over the bridge, and two
-- kinds of proxies.
use xxchain.Common.{
  ℕ, ◌≡◌, ◌↔◌, refl, true, false, ◌||◌, ◌&&◌, none, [], ◌∷◌, arith, contains, list_beq, nat_beq,
  if◌then◌else◌, nat_eq, list_eq,
}
use xxchain.Frame.{Origin, ok, err, other, DispatchResult}
use xxchain.Frame.Coins.{Balances, coins, coins-IsLawful, put}
use xxchain.Frame.StorageMap.{get, insert, empty}
use xxchain.Chainbridge.Storage.{Runtime, initial, is_relayer, is_whitelisted, resource_exists}
use xxchain.Chainbridge.Votes.{is_complete, is_expired, has_voted}
use xxchain.Chainbridge.Voting.{acknowledge_proposal}
use xxchain.Swap.Authority
use xxchain.Swap.Pallet.{Config}
use xxchain.Network.Filter.{RuntimeCall, governance, voting, Variants, is_same, is_superset}
use xxchain.Network.Superset.{Allows, is_superset-IsExact}
use xxchain.Network.Dispatcher.{World, dispatch}
use xxchain.Network.Delivery.{Delivered, acknowledge-Delivers}
mod Powers

-- Call 0 of each pallet is the one that the filter names first, call 1 the other.
abbrev test_variants : Variants
test_variants = record {
  vested_transfer = nat_beq 0;
  democracy_vote = nat_beq 0;
  democracy_remove_vote = nat_beq 1;
  elections_vote = nat_beq 0;
  elections_remove_voter = nat_beq 1;
}

is_superset-IsExact_example :
    ((is_superset governance voting || (is_same governance governance && is_same voting voting))
      ≡ true)
    ↔ Allows test_variants governance voting
is_superset-IsExact_example = is_superset-IsExact test_variants 0 refl governance voting

abbrev test_config : Config
test_config = record {
  bridge = record {
    chain_id = 1;
    proposal_lifetime = 50;
    account_id = 999;
    admin_origin = λ o. false;
  };
  native_token_id = 8 ∷ [];
  admin_origin = λ o. false;
}

-- Proposal 42 pays 30 to account 5.
abbrev test_decode : ℕ → RuntimeCall
test_decode n =
    if nat_beq 42 n then RuntimeCall.swap (Authority.transfer 5 30) else RuntimeCall.system n

abbrev no_others : RuntimeCall → Origin → DispatchResult (Runtime (World Balances))
no_others c o rt = (err (other 1), rt)

-- One relayer, a chain and a resource; the bridge's account holds 100.
abbrev prepared : Runtime (World Balances)
prepared = record {
  bridge = record initial {
    relayers = insert initial.relayers 11 true;
    chain_nonces = insert initial.chain_nonces 2 0;
    resources = insert initial.resources (8 ∷ []) (1 ∷ []);
  };
  world = record {
    bank = put 999 100 (λ a. 0);
    swap_fee = 0;
    fee_destination = none;
    swap_events = [];
  };
}

acknowledge-Delivers_example :
    ((acknowledge_proposal test_config.bridge
        (dispatch test_config coins test_decode 0 no_others)
        (Origin.signed 11)
        1
        2
        (8 ∷ [])
        42
        prepared).0
      ≡ ok tt)
    × Delivered test_config coins coins-IsLawful test_decode 0 no_others 11 1 2 42 5 30 prepared
        (acknowledge_proposal test_config.bridge
          (dispatch test_config coins test_decode 0 no_others)
          (Origin.signed 11)
          1
          2
          (8 ∷ [])
          42
          prepared).1
unfolding is_relayer is_whitelisted resource_exists is_complete is_expired has_voted get insert
    empty list_beq contains
acknowledge-Delivers_example =
    acknowledge-Delivers test_config coins coins-IsLawful test_decode 0 no_others 42 5 30 refl 11 1
      2 (8 ∷ []) prepared refl refl refl (record { undecided = refl; timely = refl }) refl
      (omega arith) (omega arith) refl
