-- ===== src/Chainbridge/Invariant.antt =====
-- The invariant of the storage of chainbridge/src/lib.rs, kept over every history.
use mathlib.Core.List.{append-nil, append_assoc}
use mathlib.Core.Path.{subst}
use xxchain.Common.{
  ℕ, ◌%◌, ◌<◌, ◌≡◌, refl, Bool, true, false, none, some, List, [], ◌∷◌, ◌++◌, arith, inl, inr,
  Bool-cases, Option-cases, ◌==◌, contains, contains-append, ap, wrapping_add, wrapping_sub, ◌≢◌,
  IsDistinct, u32_mod, pair_eq, nat_eq,
}
use xxchain.Frame.{Origin}
use xxchain.Frame.StorageMap.{
  StorageMap, get, insert, remove, get-insert, get-remove, get-empty, size, size-insert,
  size-remove, IsProper, insert-IsProper, remove-IsProper, empty-IsProper, size-empty,
}
use xxchain.Chainbridge.Storage.{
  Config, Bridge, initial, ProposalVotes, VoteKey, is_relayer, Runtime, Dispatch,
}
use xxchain.Chainbridge.Votes.{has_voted, try_to_complete}
use xxchain.Chainbridge.Voting.{cast_vote, votes_or_new}
use xxchain.Chainbridge.Effects.{
  Effect, threshold, resource, whitelist, join, leave, send, vote, count, report, next_block,
  Effects_induction,
}
use xxchain.Chainbridge.Effects.Acts.{Acts}
use xxchain.Chainbridge.Call.{History, History-Effects}

-- All who have voted on a proposal.
abbrev pub voters : ProposalVotes → List ℕ
voters v = v.votes_for ++ v.votes_against

-- The relayer count is the number of stored relayers, up to its 32 bits, and only members are
-- stored.
pub record Membership (relayers : StorageMap ℕ Bool) (relayer_count : ℕ) : Type 0 where
  pub proper : IsProper relayers
  pub members : (who : ℕ) (v : Bool) → get relayers who ≡ some v → v ≡ true
  pub counted : relayer_count ≡ size relayers % u32_mod

-- Nobody has voted twice on any proposal.
abbrev pub AllSingle : StorageMap VoteKey ProposalVotes → Type 0
AllSingle votes =
    (key : VoteKey) (v : ProposalVotes) → get votes key ≡ some v → IsDistinct (voters v)

-- The membership, a positive threshold, a chain that has not whitelisted itself, single votes.
abbrev pub IsValid : Config → Bridge → Type 0
IsValid config b =
    Membership b.relayers b.relayer_count
    × (0 < b.relayer_threshold)
    × (get b.chain_nonces config.chain_id ≡ none)
    × AllSingle b.votes

IsDistinct-insert :
    (xs ys : List ℕ) (a : ℕ)
    → IsDistinct (xs ++ ys)
    → contains xs a ≡ false
    → contains ys a ≡ false
    → IsDistinct (xs ++ (a ∷ ys))
unfolding contains
IsDistinct-insert [] ys a d hx hy = (hy, d)
IsDistinct-insert (x ∷ xs) ys a d hx hy =
    ground
      (arith, contains-append xs ys x, contains-append xs (a ∷ ys) x, IsDistinct-insert xs ys a d.1)

IsDistinct-end :
    (xs : List ℕ) (a : ℕ) → IsDistinct xs → contains xs a ≡ false → IsDistinct (xs ++ a ∷ [])
unfolding contains
IsDistinct-end xs a d h = IsDistinct-insert xs [] a (rw append-nil d) h refl

-- A vote by someone who has not voted leaves every account with one vote.
cast_vote-IsDistinct :
    (in_favour : Bool) (who : ℕ) (v : ProposalVotes)
    → IsDistinct (voters v)
    → has_voted v who ≡ false
    → IsDistinct (voters (cast_vote in_favour who v))
unfolding has_voted
cast_vote-IsDistinct true who v d h =
    rw append_assoc
      (IsDistinct-insert v.votes_for v.votes_against who d (ground arith) (ground arith))
cast_vote-IsDistinct false who v d h = rw (← append_assoc) (
    IsDistinct-end (voters v) who d
      (ground (arith, contains-append v.votes_for v.votes_against who)))

try_to_complete-voters :
    (v : ProposalVotes) (quorum total : ℕ) → voters (try_to_complete v quorum total).1 ≡ voters v
unfolding try_to_complete
try_to_complete-voters v quorum total = ground arith

module _ (m : StorageMap VoteKey ProposalVotes) (single : AllSingle m) where
  -- The votes that a new vote is added to, stored or not, are single.
  votes_or_new-IsDistinct :
      (config : Config) (now : ℕ) (key : VoteKey)
      → IsDistinct (voters (votes_or_new config now (get m key)))
  votes_or_new-IsDistinct config now key = elim (Option-cases (get m key)) [
    | inl absent ↦ rw absent tt
    | inr (v, stored) ↦ rw stored (single key v stored)
  ]

  insert-AllSingle :
      (key : VoteKey) (new : ProposalVotes) → IsDistinct (voters new) → AllSingle (insert m key new)
  insert-AllSingle key new d k v = rw get-insert (elim (Bool-cases (key == k)) [
    | inl same ↦ rw same (λ e. let eq : new ≡ v = cc in subst (λ x. IsDistinct (voters x)) eq d)
    | inr different ↦ rw different (single k v)
  ])

module _ (b : Bridge) (who : ℕ) (h : Membership b.relayers b.relayer_count) where
  absent_of_not_member : is_relayer b who ≡ false → get b.relayers who ≡ none
  unfolding is_relayer
  absent_of_not_member new = elim (Option-cases (get b.relayers who)) [
    | inl absent ↦ absent
    | inr (v, stored) ↦ ground (arith, h.members who v stored)
  ]

  join-Membership :
      is_relayer b who ≡ false
      → Membership (insert b.relayers who true) (wrapping_add u32_mod b.relayer_count 1)
  join-Membership new = record {
    proper = insert-IsProper b.relayers who true h.proper;
    members = λ w v. rw get-insert (ground (arith, h.members w v));
    counted = omega (arith, h.counted, size-insert b.relayers who true (absent_of_not_member new));
  }

  leave-Membership :
      is_relayer b who ≡ true
      → Membership (remove b.relayers who) (wrapping_sub u32_mod b.relayer_count 1)
  unfolding is_relayer
  leave-Membership old = elim (Option-cases (get b.relayers who)) [
    | inl absent ↦ absurd (ground arith)
    | inr (v, stored) ↦ record {
      proper = remove-IsProper b.relayers who h.proper;
      members = λ w v. rw get-remove (ground (arith, h.members w v));
      counted = omega (arith, h.counted, size-remove b.relayers who h.proper stored);
    }
  ]

-- A key that an update does not touch, or that was there, is still not missing.
foreign-insert :
    (config : Config) (b : Bridge) (id n : ℕ)
    → id ≢ config.chain_id
    → get b.chain_nonces config.chain_id ≡ none
    → get (insert b.chain_nonces id n) config.chain_id ≡ none
foreign-insert config b id n other foreign = rw get-insert (ground arith)

-- Every change keeps the invariant.
pub Effect-IsValid :
    (config : Config) (b c : Bridge) → Effect config b c → IsValid config b → IsValid config c
Effect-IsValid config _ _ (threshold b t positive) (m, p, f, s) = (m, positive, f, s)
Effect-IsValid config _ _ (resource b r) (m, p, f, s) = (m, p, f, s)
Effect-IsValid config _ _ (whitelist b id other new) (m, p, f, s) =
    (m, p, foreign-insert config b id 0 other f, s)
Effect-IsValid config _ _ (join b who new) (m, p, f, s) = (join-Membership b who m new, p, f, s)
Effect-IsValid config _ _ (leave b who old) (m, p, f, s) = (leave-Membership b who m old, p, f, s)
Effect-IsValid config _ _ (send b dest n ev known sent) (m, p, f, s) =
    (m, p, foreign-insert config b dest _ (λ e. cc (ap (get b.chain_nonces) e)) f, s)
Effect-IsValid config _ _ (vote b key who in_favour v ev e undecided timely first unsent)
      (m, p, f, s) =
    (
      m,
      p,
      f,
      insert-AllSingle b.votes s key (cast_vote in_favour who v) (
          cast_vote-IsDistinct in_favour who v
            (rw e (votes_or_new-IsDistinct b.votes s config b.block_number key)) first),
    )
Effect-IsValid config _ _ (count b key v stored undecided timely) (m, p, f, s) =
    (m, p, f, insert-AllSingle b.votes s key _ (rw try_to_complete-voters (s key v stored)))
Effect-IsValid config _ _ (report b ev unsent) (m, p, f, s) = (m, p, f, s)
Effect-IsValid config _ _ (next_block b n le) (m, p, f, s) = (m, p, f, s)

initial-IsValid : (config : Config) → IsValid config initial
initial-IsValid config = (
  record {
    proper = empty-IsProper;
    members = λ who v. rw get-empty (λ e. cc);
    counted = omega (arith, size-empty ℕ Bool);
  },
  omega arith,
  get-empty config.chain_id,
  λ key v. rw get-empty (λ e. cc),
)

-- From the empty storage, whatever calls from whatever origins, outgoing transfers and blocks
-- follow, and as long as dispatched proposals change this storage only by the pallet's own changes:
-- the relayer count is the number of stored relayers up to its 32 bits, only members are stored,
-- the threshold is positive, the chain is not whitelisted with itself, and no account has two votes
-- on one proposal, for or against.
pub History-IsValid :
    (config : Config) {W : Type 0} (dispatch : Dispatch W)
    → ((call : ℕ) (o : Origin) → Acts config (dispatch call o))
    → (w : W) {rt : Runtime W} → History config dispatch (record { bridge = initial; world = w }) rt
    → IsValid config rt.bridge
History-IsValid config dispatch acts w h =
    Effects_induction (IsValid config) (Effect-IsValid config)
      (History-Effects config dispatch acts h) (initial-IsValid config)
