-- ===== src/Chainbridge/Execution.antt =====
-- When chainbridge/src/lib.rs executes a proposal, and in which state.
use xxchain.Common.{
  ℕ, ◌≤◌, ◌≡◌, refl, true, false, some, arith, inl, inr, ◌⊎◌, Bool-cases, Option-cases, pair_eq,
  nat_eq, length, leb, ◌∙◌,
}
use xxchain.Frame.{err, chainbridge, proposal_already_complete}
use xxchain.Frame.StorageMap.{get, insert, get-insert_self}
use xxchain.Chainbridge.Storage.{
  Config, Bridge, ProposalVotes, approved, VoteKey, vote_key, Runtime, Dispatch,
}
use xxchain.Chainbridge.Votes.{try_to_complete, is_complete, is_expired}
use xxchain.Chainbridge.Voting.{conclude, resolve, try_resolve_proposal, finalize_execution}

-- The stored votes are open: neither decided nor expired.
pub record IsOpen (v : ProposalVotes) (now : ℕ) : Type 0 where
  pub undecided : is_complete v ≡ false
  pub timely : is_expired v now ≡ false

-- The storage with the votes of a proposal marked as approved.
abbrev pub marked : VoteKey → ProposalVotes → Bridge → Bridge
marked key v b = record b { votes = insert b.votes key (record v { status = approved }) }

-- The proposal cannot be resolved.
abbrev pub Unresolvable : {W : Type 0} → Config → Dispatch W → ℕ → ℕ → ℕ → Runtime W → Type 0
Unresolvable config dispatch nonce src_id prop rt =
    try_resolve_proposal config dispatch nonce src_id prop rt
    ≡ (err (chainbridge proposal_already_complete), rt)

module _ (config : Config) {W : Type 0} (nonce src_id prop : ℕ) where
  -- Open votes are counted and stored, and the status decides what follows.
  pub resolve_open :
      (dispatch : Dispatch W) (v : ProposalVotes) (rt : Runtime W)
      → get rt.bridge.votes (vote_key src_id nonce prop) ≡ some v
      → IsOpen v rt.bridge.block_number
      → let b = rt.bridge in
        let (status, v') = try_to_complete v b.relayer_threshold b.relayer_count in
        try_resolve_proposal config dispatch nonce src_id prop rt
        ≡ conclude config dispatch nonce src_id prop status (record rt {
          bridge = record b { votes = insert b.votes (vote_key src_id nonce prop) v' };
        })
  unfolding resolve try_resolve_proposal try_to_complete
  resolve_open dispatch v rt stored is_open =
      rw (stored, try_resolve_proposal) (rw (is_open.undecided, is_open.timely) refl)

  conclude_alike :
      (d d' : Dispatch W) (v : ProposalVotes) (quorum total : ℕ) (rt : Runtime W)
      → let status = (try_to_complete v quorum total).0 in
        (quorum ≤ length v.votes_for)
        ⊎ (conclude config d nonce src_id prop status rt
            ≡ conclude config d' nonce src_id prop status rt)
  unfolding conclude try_to_complete
  conclude_alike d d' v quorum total rt = elim (Bool-cases (leb quorum (length v.votes_for))) [
    | inl enough ↦ inl (ground arith)
    | inr few ↦ inr (rw few (ground arith))
  ]

  -- The votes of an approved proposal, once stored, cannot be resolved again.
  marked-Unresolvable :
      (dispatch : Dispatch W) (v : ProposalVotes) (b : Bridge) (w : W)
      → Unresolvable config dispatch nonce src_id prop
          (record { bridge = marked (vote_key src_id nonce prop) v b; world = w })
  unfolding resolve is_complete try_resolve_proposal
  marked-Unresolvable dispatch v b w = rw (get-insert_self, try_resolve_proposal) refl

  -- When the stored votes are open and at least the threshold of them are in favour, resolving the
  -- proposal executes it, from a state in which it is already stored as approved, so that resolving
  -- it again from there, in the execution itself or later, fails and changes nothing.
  pub executes_on_quorum :
      (dispatch again : Dispatch W) (v : ProposalVotes) (rt : Runtime W)
      → get rt.bridge.votes (vote_key src_id nonce prop) ≡ some v
      → IsOpen v rt.bridge.block_number
      → rt.bridge.relayer_threshold ≤ length v.votes_for
      → let approved_rt : Runtime W = record rt {
        bridge = marked (vote_key src_id nonce prop) v rt.bridge;
      } in
        (try_resolve_proposal config dispatch nonce src_id prop rt
          ≡ finalize_execution config dispatch src_id nonce prop approved_rt)
        × Unresolvable config again nonce src_id prop approved_rt
  unfolding conclude try_to_complete
  executes_on_quorum dispatch again v rt stored is_open enough =
      let counted : leb rt.bridge.relayer_threshold (length v.votes_for) ≡ true = ground arith in
      (
        resolve_open dispatch v rt stored is_open ∙ rw counted refl,
        marked-Unresolvable again v rt.bridge rt.world,
      )

  resolve_closed :
      (d d' : Dispatch W) (v : ProposalVotes) (rt : Runtime W)
      → (is_complete v ≡ true) ⊎ (is_expired v rt.bridge.block_number ≡ true)
      → resolve config d nonce src_id prop v rt ≡ resolve config d' nonce src_id prop v rt
  unfolding resolve
  resolve_closed d d' v rt (inl complete) = rw complete refl
  resolve_closed d d' v rt (inr late) = elim (Bool-cases (is_complete v)) [
    | inl complete ↦ rw complete refl
    | inr open_ ↦ rw (open_, late) refl
  ]

  resolve_alike :
      (d d' : Dispatch W) (v : ProposalVotes) (rt : Runtime W)
      → get rt.bridge.votes (vote_key src_id nonce prop) ≡ some v
      → (IsOpen v rt.bridge.block_number × (rt.bridge.relayer_threshold ≤ length v.votes_for))
        ⊎ (resolve config d nonce src_id prop v rt ≡ resolve config d' nonce src_id prop v rt)
  unfolding resolve
  resolve_alike d d' v rt stored = elim (Bool-cases (is_complete v)) [
    | inl complete ↦ inr (resolve_closed d d' v rt (inl complete))
    | inr open_ ↦ elim (Bool-cases (is_expired v rt.bridge.block_number)) [
      | inl late ↦ inr (resolve_closed d d' v rt (inr late))
      | inr timely ↦
          elim (conclude_alike d d' v rt.bridge.relayer_threshold rt.bridge.relayer_count _) [
            | inl enough ↦ inl (record { undecided = open_; timely = timely }, enough)
            | inr same ↦ inr (rw (open_, timely) same)
          ]
    ]
  ]

  -- Resolving a proposal has the same outcome whatever the dispatch of calls does, unless the stored
  -- votes are open and at least the threshold of them are in favour: nothing is executed without a
  -- quorum of votes that are stored, undecided and in time.
  pub dispatch_needs_quorum :
      (d d' : Dispatch W) (rt : Runtime W)
      → ((v : ProposalVotes) × (get rt.bridge.votes (vote_key src_id nonce prop) ≡ some v)
          × IsOpen v rt.bridge.block_number
          × (rt.bridge.relayer_threshold ≤ length v.votes_for))
        ⊎ (try_resolve_proposal config d nonce src_id prop rt
            ≡ try_resolve_proposal config d' nonce src_id prop rt)
  unfolding try_resolve_proposal
  dispatch_needs_quorum d d' rt =
      elim (Option-cases (get rt.bridge.votes (vote_key src_id nonce prop))) [
        | inl missing ↦ inr (rw (missing, try_resolve_proposal) refl)
        | inr (v, stored) ↦ elim (resolve_alike d d' v rt stored) [
          | inl (is_open, enough) ↦ inl (v, stored, is_open, enough)
          | inr same ↦ inr (rw (stored, try_resolve_proposal) same)
        ]
      ]
