-- ===== src/Chainbridge/Finality.antt =====
-- In chainbridge/src/lib.rs a proposal that is decided or whose time is over stays as it is.
use xxchain.Common.{
  ℕ, ◌≤◌, ◌≡◌, true, false, ◌||◌, some, arith, inl, inr, Bool-cases, ◌==◌, pair_eq, nat_eq,
  eq_of_beq,
}
use xxchain.Frame.{Origin}
use xxchain.Frame.StorageMap.{get, insert, get-insert}
use xxchain.Chainbridge.Storage.{Config, Bridge, ProposalVotes, VoteKey, Runtime, Dispatch}
use xxchain.Chainbridge.Votes.{is_complete, is_expired}
use xxchain.Chainbridge.Effects.{
  Effect, threshold, resource, whitelist, join, leave, send, vote, count, report, next_block,
  Effects_induction,
}
use xxchain.Chainbridge.Effects.Acts.{Acts}
use xxchain.Chainbridge.Call.{History, History-Effects}

-- The stored votes are `v`, and they are decided or expired.
abbrev pub IsClosed : VoteKey → ProposalVotes → Bridge → Type 0
IsClosed key v b =
    (get b.votes key ≡ some v) × ((is_complete v || is_expired v b.block_number) ≡ true)

-- An update of open votes is not an update of the closed ones.
insert-IsClosed :
    (key : VoteKey) (v : ProposalVotes) (b : Bridge) (k : VoteKey) (w new : ProposalVotes)
    → IsClosed key v b
    → (get b.votes k ≡ some v → w ≡ v)
    → is_complete w ≡ false
    → is_expired w b.block_number ≡ false
    → get (insert b.votes k new) key ≡ some v
insert-IsClosed key v b k w new (stored, closed) same open_ timely =
    rw get-insert (elim (Bool-cases (k == key)) [
      | inl hit ↦
          let e : k ≡ key = eq_of_beq k key hit in absurd (ground (arith, same (rw e stored)))
      | inr miss ↦ rw miss stored
    ])

later-expired :
    (v : ProposalVotes) (now n : ℕ) → now ≤ n → is_expired v now ≡ true → is_expired v n ≡ true
unfolding is_expired
later-expired v now n le h = ground arith

Effect-IsClosed :
    (config : Config) (key : VoteKey) (v : ProposalVotes) (b c : Bridge)
    → Effect config b c
    → IsClosed key v b
    → IsClosed key v c
Effect-IsClosed config key v _ _ (vote b k who in_favour w ev e open_ timely first unsent) h =
    (insert-IsClosed key v b k w _ h (λ stored. rw (e, stored)) open_ timely, h.1)
Effect-IsClosed config key v _ _ (count b k w stored open_ timely) h =
    (insert-IsClosed key v b k w _ h (λ s. ground (arith, stored)) open_ timely, h.1)
Effect-IsClosed config key v _ _ (next_block b n le) h =
    (h.0, ground (arith, later-expired v b.block_number n le))
Effect-IsClosed config key v _ _ (threshold b t pos) h = h
Effect-IsClosed config key v _ _ (resource b r) h = h
Effect-IsClosed config key v _ _ (whitelist b id other new) h = h
Effect-IsClosed config key v _ _ (join b who new) h = h
Effect-IsClosed config key v _ _ (leave b who old) h = h
Effect-IsClosed config key v _ _ (send b dest n ev known sent) h = h
Effect-IsClosed config key v _ _ (report b ev unsent) h = h

-- Once the stored votes of a proposal are approved, rejected or expired, no later call, transfer or
-- block changes them, neither the votes, nor the status, nor the expiry; as long as dispatched
-- proposals change the pallet's storage only by the pallet's own changes.
pub History-IsClosed :
    (config : Config) {W : Type 0} (dispatch : Dispatch W)
    → ((call : ℕ) (o : Origin) → Acts config (dispatch call o))
    → (key : VoteKey) (v : ProposalVotes) {start rt : Runtime W} → History config dispatch start rt
    → IsClosed key v start.bridge
    → IsClosed key v rt.bridge
History-IsClosed config dispatch acts key v h closed =
    Effects_induction (IsClosed key v) (Effect-IsClosed config key v)
      (History-Effects config dispatch acts h) closed
