-- ===== src/Chainbridge/Acknowledge.antt =====
-- The vote that completes a quorum in chainbridge/src/lib.rs executes the proposal.
use xxchain.Common.{
  ℕ, ◌+◌, ◌≤◌, ◌≡◌, refl, ◌∙◌, ap, true, false, List, [], ◌∷◌, ◌++◌, arith, length, length-append,
  pair_eq, nat_eq,
}
use xxchain.Frame.{Origin, Result, ok, bind-ok}
use xxchain.Frame.StorageMap.{get, insert, get-insert_self}
use xxchain.Chainbridge.Storage.{
  Config, Bridge, ProposalVotes, vote_key, Runtime, Dispatch, on_bridge, is_relayer, is_whitelisted,
  resource_exists, vote_for as event_for,
}
use xxchain.Chainbridge.Votes.{is_complete, is_expired, has_voted}
use xxchain.Chainbridge.Voting.{
  votes_or_new, cast_vote, commit_vote, finalize_execution, try_resolve_proposal, vote_for,
  acknowledge_proposal,
}
use xxchain.Chainbridge.Execution.{IsOpen, marked, executes_on_quorum}

module _ (config : Config) (who nonce src_id prop : ℕ) (b : Bridge) where
  -- The votes that `who` adds to.
  abbrev pub current : ProposalVotes
  current = votes_or_new config b.block_number (get b.votes (vote_key src_id nonce prop))

  -- The storage with the vote of `who`.
  abbrev pub voted : Bridge
  voted = record b {
    votes = insert b.votes (vote_key src_id nonce prop) (cast_vote true who current);
    events = event_for src_id nonce who ∷ b.events;
  }

  pub commit_vote-ok :
      IsOpen current b.block_number
      → has_voted current who ≡ false
      → commit_vote config who nonce src_id prop true b ≡ (ok tt, voted)
  unfolding commit_vote
  commit_vote-ok is_open first = rw (is_open.undecided, is_open.timely, first) refl

  pub cast_vote-IsOpen :
      IsOpen current b.block_number → IsOpen (cast_vote true who current) b.block_number
  unfolding is_complete is_expired
  cast_vote-IsOpen is_open = record { undecided = is_open.undecided; timely = is_open.timely }

module _ (config : Config) {W : Type 0} (dispatch : Dispatch W) where
  -- A relayer that votes for the first time on an open proposal, for a whitelisted chain and an
  -- existing resource, and whose vote makes the votes in favour reach the threshold, executes the
  -- proposal; the call is dispatched from a state that holds the vote and the approval.
  pub acknowledge_executes :
      (who nonce src_id : ℕ) (r_id : List ℕ) (prop : ℕ) (rt : Runtime W)
      → let b = rt.bridge in
        let v = current config who nonce src_id prop b in
        is_relayer b who ≡ true
        → is_whitelisted b src_id ≡ true
        → resource_exists b r_id ≡ true
        → IsOpen v b.block_number
        → has_voted v who ≡ false
        → b.relayer_threshold ≤ length v.votes_for + 1
        → acknowledge_proposal config dispatch (Origin.signed who) nonce src_id r_id prop rt
          ≡ finalize_execution config dispatch src_id nonce prop (record rt {
            bridge =
                marked
                  (vote_key src_id nonce prop)
                  (cast_vote true who v)
                  (voted config who nonce src_id prop b);
          })
  unfolding acknowledge_proposal vote_for
  acknowledge_executes who nonce src_id r_id prop rt relayer chain resource is_open first enough =
      let b = rt.bridge in
      let v = current config who nonce src_id prop b in
      let counted : b.relayer_threshold ≤ length (v.votes_for ++ who ∷ []) =
        omega (arith, length-append v.votes_for (who ∷ [])) in
      let committed = commit_vote-ok config who nonce src_id prop b is_open first in
      let voted_rt : Runtime W = record rt { bridge = voted config who nonce src_id prop b } in
      rw (relayer, chain, resource)
        (bind-ok (on_bridge (commit_vote config who nonce src_id prop true))
            (λ _. try_resolve_proposal config dispatch nonce src_id prop)
            (ap (λ (x : Result (Unit {0}) × Bridge). (x.0, record rt { bridge = x.1 })) committed)
          ∙ (executes_on_quorum config nonce src_id prop dispatch dispatch (cast_vote true who v)
              voted_rt (get-insert_self b.votes (vote_key src_id nonce prop) (cast_vote true who v))
              (cast_vote-IsOpen config who nonce src_id prop b is_open) counted).0)
