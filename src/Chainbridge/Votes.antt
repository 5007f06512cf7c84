-- ===== src/Chainbridge/Votes.antt =====
-- `impl ProposalVotes` of chainbridge/src/lib.rs, and what its counting decides.
use xxchain.Common.{
  ℕ, ◌+◌, ◌-◌, ◌%◌, ◌≤◌, ◌<◌, ◌≡◌, Bool, true, false, ◌&&◌, ◌||◌, arith, ltb, leb, if◌then◌else◌,
  length, contains, u32_mod, wrapping_add,
}
use xxchain.Chainbridge.Storage.{ProposalStatus, initiated, approved, rejected, ProposalVotes}

-- The status that is returned, and the votes as they are left.
unfoldable pub try_to_complete : ProposalVotes → ℕ → ℕ → ProposalStatus × ProposalVotes
try_to_complete v threshold total =
    if leb threshold (length v.votes_for)
    then (approved, record v { status = approved })
    else if leb threshold total
        && ltb total (wrapping_add u32_mod (length v.votes_against % u32_mod) threshold)
    then (rejected, record v { status = rejected })
    else (initiated, v)

unfoldable pub is_complete : ProposalVotes → Bool
is_complete v = elim v.status [ initiated ↦ false | _ ↦ true ]

unfoldable pub has_voted : ProposalVotes → ℕ → Bool
has_voted v who = contains v.votes_for who || contains v.votes_against who

unfoldable pub is_expired : ProposalVotes → ℕ → Bool
is_expired v now = leb v.expiry now

-- What a status says of the votes, for `total` relayers: approved means a quorum in favour;
-- rejected, that no quorum is left even if all others vote in favour; neither, that there is no
-- quorum yet and, where the relayers can make one at all, that the others still can.
abbrev pub Justified : ProposalVotes → ℕ → ℕ → ProposalStatus → Type 0
Justified v threshold total approved = threshold ≤ length v.votes_for
Justified v threshold total rejected =
    (length v.votes_for < threshold) × (total - length v.votes_against < threshold)
Justified v threshold total initiated =
    (length v.votes_for < threshold)
    × (threshold ≤ total → threshold ≤ total - length v.votes_against)

-- With a threshold and vote counts that fit 32 bits together, the status that `try_to_complete`
-- returns is justified by the votes, is the status that it stores unless it is `initiated`, and
-- neither list of votes nor the expiry changes.
pub try_to_complete-Justified :
    (v : ProposalVotes) (threshold total : ℕ)
    → length v.votes_against + threshold < u32_mod
    → total < u32_mod
    → let (status, v') = try_to_complete v threshold total in
      Justified v threshold total status
      × (v' ≡ (
          if is_complete (record v { status = status }) then record v { status = status } else v))
unfolding try_to_complete is_complete
try_to_complete-Justified v threshold total fits small = ground arith
