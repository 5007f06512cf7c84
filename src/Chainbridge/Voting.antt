-- ===== src/Chainbridge/Voting.antt =====
-- Voting on a proposal and executing it, chainbridge/src/lib.rs.
use xxchain.Common.{
  ℕ, Bool, true, false, not, Option, none, some, List, [], ◌∷◌, ◌++◌, if◌then◌else◌, u32_mod,
  wrapping_add, pair_eq, nat_eq, ◌==◌,
}
use xxchain.Frame.{
  err, chainbridge, must_be_relayer, chain_not_whitelisted, resource_does_not_exist,
  proposal_already_complete, proposal_expired, relayer_already_voted, proposal_does_not_exist,
  DispatchResult, pure, ensure, modify, ◌>>=◌, ◌>>◌, Origin, ensure_signed,
}
use xxchain.Frame.StorageMap.{get, insert}
use xxchain.Chainbridge.Storage.{
  ProposalStatus, initiated, approved, rejected, ProposalVotes, default_votes, Config, Bridge,
  Event, vote_for as event_for, vote_against as event_against, proposal_approved, proposal_rejected,
  proposal_succeeded, vote_key, deposit_event, is_relayer, resource_exists, is_whitelisted, Runtime,
  on_bridge, Dispatch,
}
use xxchain.Chainbridge.Votes.{try_to_complete, is_complete, has_voted, is_expired}

-- The two branches of `if in_favour`.
abbrev pub cast_vote : Bool → ℕ → ProposalVotes → ProposalVotes
cast_vote true who v = record v { votes_for = v.votes_for ++ who ∷ [] }
cast_vote false who v = record v { votes_against = v.votes_against ++ who ∷ [] }

abbrev pub vote_event : Bool → ℕ → ℕ → ℕ → Event
vote_event true src_id nonce who = event_for src_id nonce who
vote_event false src_id nonce who = event_against src_id nonce who

module _ (config : Config) where
  -- The votes that are stored, or the default with its expiry.
  abbrev pub votes_or_new : ℕ → Option ProposalVotes → ProposalVotes
  votes_or_new now (some v) = v
  votes_or_new now none = record default_votes {
    expiry = wrapping_add u32_mod now config.proposal_lifetime;
  }

  unfoldable pub commit_vote : ℕ → ℕ → ℕ → ℕ → Bool → DispatchResult Bridge
  commit_vote who nonce src_id prop in_favour b =
      let key = vote_key src_id nonce prop in
      let now = b.block_number in
      let votes = votes_or_new now (get b.votes key) in
      (do
        ensure (not (is_complete votes)) (chainbridge proposal_already_complete)
        ensure (not (is_expired votes now)) (chainbridge proposal_expired)
        ensure (not (has_voted votes who)) (chainbridge relayer_already_voted)
        deposit_event (vote_event in_favour src_id nonce who)
        modify (λ b. record b { votes = insert b.votes key (cast_vote in_favour who votes) }))
        b

  -- `EnsureBridge::try_origin`
  unfoldable pub ensure_bridge : Origin → Option ℕ
  ensure_bridge (Origin.signed who) =
      if who == config.account_id then some config.account_id else none
  ensure_bridge _ = none

  module _ {W : Type 0} (dispatch : Dispatch W) where
    unfoldable pub finalize_execution : ℕ → ℕ → ℕ → DispatchResult (Runtime W)
    finalize_execution src_id nonce call = do
      on_bridge (deposit_event (proposal_approved src_id nonce))
      dispatch call (Origin.signed config.account_id)
      on_bridge (deposit_event (proposal_succeeded src_id nonce))

    unfoldable pub cancel_execution : ℕ → ℕ → DispatchResult (Runtime W)
    cancel_execution src_id nonce = on_bridge (deposit_event (proposal_rejected src_id nonce))

    -- `match status`
    unfoldable pub conclude : ℕ → ℕ → ℕ → ProposalStatus → DispatchResult (Runtime W)
    unfolding finalize_execution cancel_execution
    conclude nonce src_id prop approved = finalize_execution src_id nonce prop
    conclude nonce src_id prop rejected = cancel_execution src_id nonce
    conclude nonce src_id prop initiated = pure tt

    -- The body of `if let Some(mut votes)`.
    unfoldable pub resolve : ℕ → ℕ → ℕ → ProposalVotes → DispatchResult (Runtime W)
    unfolding conclude
    resolve nonce src_id prop votes rt =
        let b = rt.bridge in
        let (status, votes') = try_to_complete votes b.relayer_threshold b.relayer_count in
        (do
          ensure (not (is_complete votes)) (chainbridge proposal_already_complete)
          ensure (not (is_expired votes b.block_number)) (chainbridge proposal_expired)
          on_bridge (
              modify (λ b. record b { votes = insert b.votes (vote_key src_id nonce prop) votes' }))
          conclude nonce src_id prop status)
          rt

    unfoldable pub try_resolve_proposal : ℕ → ℕ → ℕ → DispatchResult (Runtime W)
    unfolding resolve
    try_resolve_proposal nonce src_id prop rt =
        elim (get rt.bridge.votes (vote_key src_id nonce prop)) [
          | some votes ↦ resolve nonce src_id prop votes rt
          | none ↦ (err (chainbridge proposal_does_not_exist), rt)
        ]

    unfoldable pub vote_for : ℕ → ℕ → ℕ → ℕ → DispatchResult (Runtime W)
    vote_for who nonce src_id prop = do
      on_bridge (commit_vote who nonce src_id prop true)
      try_resolve_proposal nonce src_id prop

    unfoldable pub vote_against : ℕ → ℕ → ℕ → ℕ → DispatchResult (Runtime W)
    vote_against who nonce src_id prop = do
      on_bridge (commit_vote who nonce src_id prop false)
      try_resolve_proposal nonce src_id prop

    unfoldable pub acknowledge_proposal : Origin → ℕ → ℕ → List ℕ → ℕ → DispatchResult (Runtime W)
    acknowledge_proposal origin nonce src_id r_id call rt =
        let b = rt.bridge in
        (do
          who ← ensure_signed origin
          ensure (is_relayer b who) (chainbridge must_be_relayer)
          ensure (is_whitelisted b src_id) (chainbridge chain_not_whitelisted)
          ensure (resource_exists b r_id) (chainbridge resource_does_not_exist)
          vote_for who nonce src_id call)
          rt

    unfoldable pub reject_proposal : Origin → ℕ → ℕ → List ℕ → ℕ → DispatchResult (Runtime W)
    reject_proposal origin nonce src_id r_id call rt =
        let b = rt.bridge in
        (do
          who ← ensure_signed origin
          ensure (is_relayer b who) (chainbridge must_be_relayer)
          ensure (is_whitelisted b src_id) (chainbridge chain_not_whitelisted)
          ensure (resource_exists b r_id) (chainbridge resource_does_not_exist)
          vote_against who nonce src_id call)
          rt

    unfoldable pub eval_vote_state : Origin → ℕ → ℕ → ℕ → DispatchResult (Runtime W)
    eval_vote_state origin nonce src_id prop = do
      ensure_signed origin
      try_resolve_proposal nonce src_id prop
