-- ===== src/Chainbridge/Liveness.antt =====
-- The votes that a proposal needs in chainbridge/src/lib.rs, one after the other, end in its execution.
use xxchain.Common.{
  ℕ, ◌+◌, ◌≤◌, ◌<◌, ◌≡◌, refl, true, false, some, List, [], ◌∷◌, length, pair_eq, nat_eq, u32_mod,
}
use xxchain.Frame.{Origin, DispatchResult}
use xxchain.Frame.StorageMap.{get, insert}
use xxchain.Chainbridge.Storage.{
  Config, Bridge, ProposalVotes, initiated, approved, vote_key, Runtime, Dispatch, is_relayer,
  is_whitelisted, resource_exists,
}
use xxchain.Chainbridge.Votes.{has_voted}
use xxchain.Chainbridge.Voting.{cast_vote, acknowledge_proposal}
use xxchain.Chainbridge.Acknowledge.{current, voted}

-- A later block.
abbrev pub at : {W : Type 0} → ℕ → Runtime W → Runtime W
at n rt = record rt { bridge = record rt.bridge { block_number = n } }

module _ (config : Config) {W : Type 0} (dispatch : Dispatch W) (nonce src_id : ℕ) (r_id : List ℕ)
    (prop : ℕ) where
  -- A vote in favour, at a block.
  abbrev pub acknowledge_at : ℕ × ℕ → DispatchResult (Runtime W)
  acknowledge_at vote rt =
      acknowledge_proposal config dispatch (Origin.signed vote.1) nonce src_id r_id prop
        (at vote.0 rt)

  -- Votes one after the other, and the result of the last.
  abbrev pub ballot : ℕ × ℕ → List (ℕ × ℕ) → DispatchResult (Runtime W)
  ballot vote [] rt = acknowledge_at vote rt
  ballot vote (next ∷ rest) rt = ballot next rest (acknowledge_at vote rt).1

  -- A relayer who has not voted yet, before the votes expire.
  abbrev pub CanVote : Bridge → ProposalVotes → ℕ × ℕ → Type 0
  CanVote b v vote =
      (vote.0 < v.expiry) × (is_relayer b vote.1 ≡ true) × (has_voted v vote.1 ≡ false)

  abbrev pub AllCanVote : Bridge → ProposalVotes → ℕ × ℕ → List (ℕ × ℕ) → Type 0
  AllCanVote b v vote [] = CanVote b v vote
  AllCanVote b v vote (next ∷ rest) =
      CanVote b v vote × AllCanVote b (cast_vote true vote.1 v) next rest

  -- The votes of a proposal are stored and undecided, its chain and its resource are known, and the
  -- relayers who have not voted against it can make a quorum.
  pub record Pending (v : ProposalVotes) (rt : Runtime W) : Type 0 where
    pub stored : get rt.bridge.votes (vote_key src_id nonce prop) ≡ some v
    pub undecided : v.status ≡ initiated
    pub chain : is_whitelisted rt.bridge src_id ≡ true
    pub resource : resource_exists rt.bridge r_id ≡ true
    pub enough : length v.votes_against + rt.bridge.relayer_threshold ≤ rt.bridge.relayer_count
    pub small : rt.bridge.relayer_count < u32_mod

  -- The state after a vote that does not make the quorum.
  abbrev counted : ℕ × ℕ → ProposalVotes → Runtime W → Runtime W
  counted vote v rt =
      let b = voted config vote.1 nonce src_id prop (at vote.0 rt).bridge in
      record rt {
        bridge = record b {
          votes = insert b.votes (vote_key src_id nonce prop) (cast_vote true vote.1 v);
        };
      }

  module _ (v : ProposalVotes) (rt : Runtime W) (vote : ℕ × ℕ) (pending : Pending v rt)
      (can : CanVote rt.bridge v vote) where
    at_current : current config vote.1 nonce src_id prop (at vote.0 rt).bridge ≡ v
    at_current = rw pending.stored refl

    abbrev who : ℕ
    who = vote.1

  -- The state that a proposal is executed from: nothing outside the bridge has changed since `rt`, and
  -- the proposal is stored as approved with the votes in favour.
  pub record Approved (voters : List ℕ) (rt t : Runtime W) : Type 0 where
    pub untouched : t.world ≡ rt.world
    pub decided :
        (v : ProposalVotes) × (get t.bridge.votes (vote_key src_id nonce prop) ≡ some v)
        × (v.status ≡ approved)
        × (v.votes_for ≡ voters)
