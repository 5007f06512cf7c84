-- ===== src/Chainbridge/Examples.antt =====
-- Runs of chainbridge/src/lib.rs on small states.
use xxchain.Common.{
  ℕ, ◌≤◌, ◌≡◌, refl, Bool, true, false, some, [], ◌∷◌, arith, length, pair_eq, nat_eq, list_eq, ◌⊎◌,
}
use xxchain.Frame.{Origin, ok, err, chainbridge, must_be_relayer}
use xxchain.Frame.StorageMap.{get, insert, empty, get-insert_self}
use xxchain.Chainbridge.Storage.{
  Config, initial, ProposalVotes, approved, rejected, default_votes, vote_key, Runtime, Dispatch,
  on_bridge,
}
use xxchain.Chainbridge.Votes.{try_to_complete, is_complete}
use xxchain.Chainbridge.Admin
use xxchain.Chainbridge.Transfers.{transfer_fungible}
use xxchain.Chainbridge.Voting.{try_resolve_proposal, finalize_execution}
use xxchain.Chainbridge.Effects.{here}
use xxchain.Chainbridge.Effects.Acts.{Acts}
use xxchain.Chainbridge.Call.{
  add_relayer, whitelist_chain, set_resource, acknowledge_proposal as acknowledge, run, History,
  begin, called, sent_fungible,
}
use xxchain.Chainbridge.Invariant.{IsValid, History-IsValid}
use xxchain.Chainbridge.Finality.{IsClosed, History-IsClosed}
use xxchain.Chainbridge.Nonces.{nonces_to, countdown, History-nonces}
use xxchain.Chainbridge.Execution.{IsOpen, marked, dispatch_needs_quorum}
use xxchain.Chainbridge.Voting.{finalize_execution}

abbrev administrator : Origin
administrator = Origin.custom 7

abbrev is_administrator : Origin → Bool
is_administrator (Origin.custom n) = true
is_administrator _ = false

abbrev test_config : Config
test_config = record {
  chain_id = 1;
  proposal_lifetime = 50;
  account_id = 999;
  admin_origin = is_administrator;
}

-- A dispatch that writes down the call.
abbrev log_call : Dispatch ℕ
log_call call o rt = (ok tt, record rt { world = call })

log_call-Acts : (call : ℕ) (o : Origin) → Acts test_config (log_call call o)
log_call-Acts call o = record { at = λ rt. here }

abbrev genesis : Runtime ℕ
genesis = record { bridge = initial; world = 0 }

-- Two votes against, one in favour, of three relayers.
abbrev split_votes : ProposalVotes
split_votes = record default_votes {
  votes_for = 11 ∷ [];
  votes_against = 12 ∷ 13 ∷ [];
  expiry = 60;
}

split_rejected : (try_to_complete split_votes 2 3).0 ≡ rejected
unfolding try_to_complete
split_rejected = refl

-- A relayer, a chain, a resource and a vote that executes call 42.
abbrev with_relayer : Runtime ℕ
with_relayer = (run test_config log_call Origin.root (add_relayer 11) genesis).1

abbrev with_chain : Runtime ℕ
with_chain = (run test_config log_call administrator (whitelist_chain 2) with_relayer).1

abbrev with_resource : Runtime ℕ
with_resource =
    (run test_config log_call administrator (set_resource (8 ∷ []) (1 ∷ [])) with_chain).1

abbrev with_vote : Runtime ℕ
with_vote =
    (run test_config log_call (Origin.signed 11) (acknowledge 1 2 (8 ∷ []) 42) with_resource).1

abbrev with_transfer : Runtime ℕ
with_transfer = (on_bridge (transfer_fungible 2 (8 ∷ []) (3 ∷ []) 100) with_vote).1

story : History test_config log_call genesis with_transfer
story = sent_fungible 2 (8 ∷ []) (3 ∷ []) 100 (
    called (Origin.signed 11) (acknowledge 1 2 (8 ∷ []) 42) (
      called administrator (set_resource (8 ∷ []) (1 ∷ []))
        (called administrator (whitelist_chain 2) (called Origin.root (add_relayer 11) begin))))

History-IsValid_example : IsValid test_config with_transfer.bridge
History-IsValid_example = History-IsValid test_config log_call log_call-Acts 0 story

-- A proposal that is approved, and a later vote on it.
abbrev approved_votes : ProposalVotes
approved_votes = record default_votes { votes_for = 11 ∷ []; status = approved; expiry = 60 }

abbrev closed : Runtime ℕ
closed = record genesis {
  bridge = record initial { votes = insert initial.votes (vote_key 2 1 42) approved_votes };
}

History-IsClosed_example :
    IsClosed
      (vote_key 2 1 42)
      approved_votes
      (run test_config log_call (Origin.signed 11) (acknowledge 1 2 (8 ∷ []) 42) closed).1.bridge
unfolding is_complete
History-IsClosed_example =
    History-IsClosed test_config log_call log_call-Acts (vote_key 2 1 42) approved_votes
      (called (Origin.signed 11) (acknowledge 1 2 (8 ∷ []) 42) begin)
      (get-insert_self initial.votes (vote_key 2 1 42) approved_votes, refl)

-- Two transfers to chain 2.
abbrev opened : Runtime ℕ
opened = (run test_config log_call administrator (whitelist_chain 2) genesis).1

abbrev once_sent : Runtime ℕ
once_sent = (on_bridge (transfer_fungible 2 (8 ∷ []) (3 ∷ []) 100) opened).1

abbrev twice_sent : Runtime ℕ
twice_sent = (on_bridge (transfer_fungible 2 (8 ∷ []) (3 ∷ []) 200) once_sent).1

two_transfers : nonces_to 2 twice_sent.bridge.events ≡ 2 ∷ 1 ∷ []
unfolding run Admin.whitelist_chain transfer_fungible nonces_to get insert empty
two_transfers = refl

History-nonces_example :
    let sent = nonces_to 2 twice_sent.bridge.events in
    (sent ≡ countdown (length sent))
    × ((n : ℕ) → get twice_sent.bridge.chain_nonces 2 ≡ some n → n ≡ length sent)
History-nonces_example =
    History-nonces test_config log_call log_call-Acts 0
      (sent_fungible 2 (8 ∷ []) (3 ∷ []) 200
        (sent_fungible 2 (8 ∷ []) (3 ∷ []) 100 (called administrator (whitelist_chain 2) begin)))
      2 (rw two_transfers (omega arith))

-- One vote in favour, of one that is needed.
abbrev enough_votes : ProposalVotes
enough_votes = record default_votes { votes_for = 11 ∷ []; expiry = 60 }

abbrev ready : Runtime ℕ
ready = record genesis {
  bridge = record initial { votes = insert initial.votes (vote_key 2 1 42) enough_votes };
}

abbrev settled : Runtime ℕ
settled = record ready { bridge = marked (vote_key 2 1 42) enough_votes ready.bridge }

-- A dispatch that fails.
abbrev fail_call : Dispatch ℕ
fail_call call o rt = (err (chainbridge must_be_relayer), rt)

dispatch_needs_quorum_example :
    ((v : ProposalVotes) × (get ready.bridge.votes (vote_key 2 1 42) ≡ some v)
      × IsOpen v ready.bridge.block_number
      × (ready.bridge.relayer_threshold ≤ length v.votes_for))
    ⊎ (try_resolve_proposal test_config log_call 1 2 42 ready
        ≡ try_resolve_proposal test_config fail_call 1 2 42 ready)
dispatch_needs_quorum_example = dispatch_needs_quorum test_config 1 2 42 log_call fail_call ready

-- A relayer, a chain, a resource, and no vote yet.
abbrev prepared : Runtime ℕ
prepared = record genesis {
  bridge = record initial {
    relayers = insert initial.relayers 11 true;
    chain_nonces = insert initial.chain_nonces 2 0;
    resources = insert initial.resources (8 ∷ []) (1 ∷ []);
  };
}

-- Three relayers, two of which are needed; the proposal was stored with one vote against.
abbrev one_against : ProposalVotes
one_against = record default_votes { votes_against = 13 ∷ []; expiry = 60 }

abbrev awaiting : Runtime ℕ
awaiting = record genesis {
  bridge = record initial {
    relayer_threshold = 2;
    relayers = insert (insert (insert empty 11 true) 12 true) 13 true;
    relayer_count = 3;
    chain_nonces = insert initial.chain_nonces 2 0;
    resources = insert initial.resources (8 ∷ []) (1 ∷ []);
    votes = insert initial.votes (vote_key 2 1 42) one_against;
  };
}
