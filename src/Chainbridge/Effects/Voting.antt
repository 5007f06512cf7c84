-- ===== src/Chainbridge/Effects/Voting.antt =====
-- Voting in chainbridge/src/lib.rs makes only the changes of Effects, as long as the dispatched
-- calls make no others.
use xxchain.Common.{
  ℕ, ◌≡◌, refl, Bool, true, false, none, some, List, inl, inr, Bool-cases, Option-cases, pair_eq,
  nat_eq,
}
use xxchain.Frame.{Origin, ◌>>◌}
use xxchain.Frame.StorageMap.{get, insert}
use xxchain.Chainbridge.Storage.{
  Event, ProposalStatus, initiated, approved, rejected, ProposalVotes, Config, Bridge, vote_key,
  proposal_approved, proposal_succeeded, proposal_rejected, Runtime, Dispatch, on_bridge,
  is_relayer, is_whitelisted, resource_exists, deposit_event,
}
use xxchain.Chainbridge.Votes.{try_to_complete, is_complete, has_voted, is_expired}
use xxchain.Chainbridge.Voting.{
  votes_or_new, vote_event, commit_vote, conclude, resolve, try_resolve_proposal, vote_for,
  vote_against, acknowledge_proposal, reject_proposal, eval_vote_state,
}
use xxchain.Chainbridge.Effects.{
  sent_to, vote, count, report, Effects, here, one_effect, Effects-trans,
}
use xxchain.Chainbridge.Effects.Acts.{
  Acts, Acts-bind, Acts-on_bridge, Acts-still, Acts-signed, guarded-Acts,
}

sent_to-vote_event :
    (in_favour : Bool) (src nonce who : ℕ) → sent_to (vote_event in_favour src nonce who) ≡ none
sent_to-vote_event true src nonce who = refl
sent_to-vote_event false src nonce who = refl

module _ (config : Config) (b : Bridge) where
  pub commit_vote-Effects :
      (who nonce src_id prop : ℕ) (in_favour : Bool)
      → Effects config b (commit_vote config who nonce src_id prop in_favour b).1
  unfolding commit_vote
  commit_vote-Effects who nonce src_id prop in_favour =
      let votes : ProposalVotes =
        votes_or_new config b.block_number (get b.votes (vote_key src_id nonce prop)) in
      elim (Bool-cases (is_complete votes)) [
        | inl complete ↦ rw complete here
        | inr open_ ↦ elim (Bool-cases (is_expired votes b.block_number)) [
          | inl late ↦ rw (open_, late) here
          | inr timely ↦ elim (Bool-cases (has_voted votes who)) [
            | inl twice ↦ rw (open_, timely, twice) here
            | inr first ↦
                rw (open_, timely, first)
                  (one_effect (
                    vote b (vote_key src_id nonce prop) who in_favour votes _ refl open_ timely
                      first (sent_to-vote_event in_favour src_id nonce who)))
          ]
        ]
      ]

module _ {W : Type 0} (config : Config) (dispatch : Dispatch W)
    (acts : (call : ℕ) (o : Origin) → Acts config (dispatch call o)) where
  report-Acts :
      (ev : Event) → sent_to ev ≡ none → Acts {W = W} config (on_bridge (deposit_event ev))
  report-Acts ev other = Acts-on_bridge (deposit_event ev) (λ b. one_effect (report b ev other))

  conclude-Acts :
      (nonce src_id prop : ℕ) (status : ProposalStatus)
      → Acts config (conclude config dispatch nonce src_id prop status)
  unfolding conclude
  conclude-Acts nonce src_id prop approved =
      Acts-bind _ _ (report-Acts (proposal_approved src_id nonce) refl) λ _.
        Acts-bind _ _ (acts prop (Origin.signed config.account_id))
          λ _. report-Acts (proposal_succeeded src_id nonce) refl
  conclude-Acts nonce src_id prop rejected = report-Acts (proposal_rejected src_id nonce) refl
  conclude-Acts nonce src_id prop initiated = Acts-still _ (λ rt. refl)

  resolve-Effects :
      (nonce src_id prop : ℕ) (votes : ProposalVotes) (rt : Runtime W)
      → get rt.bridge.votes (vote_key src_id nonce prop) ≡ some votes
      → Effects config rt.bridge (resolve config dispatch nonce src_id prop votes rt).1.bridge
  unfolding resolve
  resolve-Effects nonce src_id prop votes rt stored =
      let key = vote_key src_id nonce prop in
      let b = rt.bridge in
      let outcome = try_to_complete votes b.relayer_threshold b.relayer_count in
      let counted : Runtime W = record rt {
        bridge = record b { votes = insert b.votes key outcome.1 };
      } in
      elim (Bool-cases (is_complete votes)) [
        | inl complete ↦ rw complete here
        | inr open_ ↦ elim (Bool-cases (is_expired votes b.block_number)) [
          | inl late ↦ rw (open_, late) here
          | inr timely ↦
              rw (open_, timely)
                (Effects-trans (one_effect (count b key votes stored open_ timely))
                  ((conclude-Acts nonce src_id prop outcome.0).at counted))
        ]
      ]

  pub try_resolve_proposal-Acts :
      (nonce src_id prop : ℕ) → Acts config (try_resolve_proposal config dispatch nonce src_id prop)
  unfolding try_resolve_proposal
  try_resolve_proposal-Acts nonce src_id prop = record {
    at = λ rt. elim (Option-cases (get rt.bridge.votes (vote_key src_id nonce prop))) [
      | inl missing ↦ rw (missing, try_resolve_proposal) here
      | inr (votes, stored) ↦
          rw (stored, try_resolve_proposal) (resolve-Effects nonce src_id prop votes rt stored)
    ];
  }

  vote-Acts :
      (who nonce src_id prop : ℕ) (in_favour : Bool)
      → Acts config (
          on_bridge (commit_vote config who nonce src_id prop in_favour)
          >> try_resolve_proposal config dispatch nonce src_id prop)
  vote-Acts who nonce src_id prop in_favour =
      Acts-bind _ _
        (Acts-on_bridge _ (λ b. commit_vote-Effects config b who nonce src_id prop in_favour))
        λ _. try_resolve_proposal-Acts nonce src_id prop

  pub acknowledge_proposal-Acts :
      (origin : Origin) (nonce src_id : ℕ) (r_id : List ℕ) (call : ℕ)
      → Acts config (acknowledge_proposal config dispatch origin nonce src_id r_id call)
  unfolding acknowledge_proposal vote_for
  acknowledge_proposal-Acts origin nonce src_id r_id call = record {
    at = λ rt.
        (guarded-Acts origin (is_relayer rt.bridge) (is_whitelisted rt.bridge src_id)
            (resource_exists rt.bridge r_id) _ (λ who. vote-Acts who nonce src_id call true)).at
          rt;
  }

  pub reject_proposal-Acts :
      (origin : Origin) (nonce src_id : ℕ) (r_id : List ℕ) (call : ℕ)
      → Acts config (reject_proposal config dispatch origin nonce src_id r_id call)
  unfolding reject_proposal vote_against
  reject_proposal-Acts origin nonce src_id r_id call = record {
    at = λ rt.
        (guarded-Acts origin (is_relayer rt.bridge) (is_whitelisted rt.bridge src_id)
            (resource_exists rt.bridge r_id) _ (λ who. vote-Acts who nonce src_id call false)).at
          rt;
  }

  pub eval_vote_state-Acts :
      (origin : Origin) (nonce src_id prop : ℕ)
      → Acts config (eval_vote_state config dispatch origin nonce src_id prop)
  unfolding eval_vote_state
  eval_vote_state-Acts origin nonce src_id prop =
      Acts-signed origin _ λ _. try_resolve_proposal-Acts nonce src_id prop
