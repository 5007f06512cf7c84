-- ===== src/Chainbridge/Effects.antt =====
-- The changes that the code of chainbridge/src/lib.rs makes to the pallet's storage, as a step
-- relation, and their sequences. The proofs that the operations make no others are in the children.
pub mod Admin
pub mod Transfers
pub mod Acts
pub mod Voting
use xxchain.Common.{
  ℕ, ◌≤◌, ◌<◌, ◌≡◌, ◌≢◌, refl, Bool, true, false, Option, none, some, List, ◌∷◌, u32_mod, u64_mod,
  wrapping_add, wrapping_sub, pair_eq, nat_eq,
}
use xxchain.Frame.StorageMap.{StorageMap, get, insert, remove}
use xxchain.Chainbridge.Storage.{
  Config, Bridge, Event, ProposalVotes, relayer_threshold_changed, chain_whitelisted, relayer_added,
  relayer_removed, fungible_transfer, non_fungible_transfer, generic_transfer, is_relayer, VoteKey,
}
use xxchain.Chainbridge.Votes.{try_to_complete, is_complete, has_voted, is_expired}
use xxchain.Chainbridge.Voting.{cast_vote, votes_or_new}

-- The chain and the nonce of an outgoing transfer.
abbrev pub sent_to : Event → Option (ℕ × ℕ)
sent_to (fungible_transfer chain nonce _ _ _) = some (chain, nonce)
sent_to (non_fungible_transfer chain nonce _ _ _ _) = some (chain, nonce)
sent_to (generic_transfer chain nonce _ _) = some (chain, nonce)
sent_to _ = none

pub data Effect (config : Config) : Bridge → Bridge → Type 0 where
  threshold :
      (b : Bridge) (t : ℕ)
      → 0 < t
      → Effect config b
          (record b { relayer_threshold = t; events = relayer_threshold_changed t ∷ b.events })
  resource :
      (b : Bridge) (r : StorageMap (List ℕ) (List ℕ)) → Effect config b (record b { resources = r })
  whitelist :
      (b : Bridge) (id : ℕ)
      → id ≢ config.chain_id
      → get b.chain_nonces id ≡ none
      → Effect config b (record b {
        chain_nonces = insert b.chain_nonces id 0;
        events = chain_whitelisted id ∷ b.events;
      })
  join :
      (b : Bridge) (who : ℕ)
      → is_relayer b who ≡ false
      → Effect config b (record b {
        relayers = insert b.relayers who true;
        relayer_count = wrapping_add u32_mod b.relayer_count 1;
        events = relayer_added who ∷ b.events;
      })
  leave :
      (b : Bridge) (who : ℕ)
      → is_relayer b who ≡ true
      → Effect config b (record b {
        relayers = remove b.relayers who;
        relayer_count = wrapping_sub u32_mod b.relayer_count 1;
        events = relayer_removed who ∷ b.events;
      })
  send :
      (b : Bridge) (dest n : ℕ) (ev : Event)
      → get b.chain_nonces dest ≡ some n
      → sent_to ev ≡ some (dest, wrapping_add u64_mod n 1)
      → Effect config b (record b {
        chain_nonces = insert b.chain_nonces dest (wrapping_add u64_mod n 1);
        events = ev ∷ b.events;
      })
  vote :
      (b : Bridge) (key : VoteKey) (who : ℕ) (in_favour : Bool) (v : ProposalVotes) (ev : Event)
      → v ≡ votes_or_new config b.block_number (get b.votes key)
      → is_complete v ≡ false
      → is_expired v b.block_number ≡ false
      → has_voted v who ≡ false
      → sent_to ev ≡ none
      → Effect config b (record b {
        votes = insert b.votes key (cast_vote in_favour who v);
        events = ev ∷ b.events;
      })
  count :
      (b : Bridge) (key : VoteKey) (v : ProposalVotes)
      → get b.votes key ≡ some v
      → is_complete v ≡ false
      → is_expired v b.block_number ≡ false
      → Effect config b (record b {
        votes = insert b.votes key (try_to_complete v b.relayer_threshold b.relayer_count).1;
      })
  report :
      (b : Bridge) (ev : Event)
      → sent_to ev ≡ none
      → Effect config b (record b { events = ev ∷ b.events })
  next_block :
      (b : Bridge) (n : ℕ) → b.block_number ≤ n → Effect config b (record b { block_number = n })

pub data Effects (config : Config) (b : Bridge) : Bridge → Type 0 where
  here : Effects config b b
  then_effect : {c d : Bridge} → Effects config b c → Effect config c d → Effects config b d

module _ {config : Config} where
  pub one_effect : {b c : Bridge} → Effect config b c → Effects config b c
  one_effect e = then_effect here e

  pub Effects-trans :
      {b c d : Bridge} → Effects config b c → Effects config c d → Effects config b d
  Effects-trans bc here = bc
  Effects-trans bc (then_effect cd e) = then_effect (Effects-trans bc cd) e

  -- What every effect keeps, every sequence keeps.
  pub Effects_induction {ℓ} :
      (P : Bridge → Type ℓ) {b c : Bridge}
      → ((x y : Bridge) → Effect config x y → P x → P y)
      → Effects config b c
      → P b
      → P c
  Effects_induction P keep here h = h
  Effects_induction P keep (then_effect bc e) h = keep _ _ e (Effects_induction P keep bc h)
