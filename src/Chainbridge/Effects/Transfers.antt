-- ===== src/Chainbridge/Effects/Transfers.antt =====
-- The outgoing transfers of chainbridge/src/lib.rs make only the changes of Effects.
use xxchain.Common.{
  ℕ, ◌≡◌, none, some, List, ◌∷◌, arith, inl, inr, Option-cases, u64_mod, wrapping_add, nat_eq,
}
use xxchain.Frame.{ok, err, chainbridge, chain_not_whitelisted, DispatchResult}
use xxchain.Frame.StorageMap.{get, insert}
use xxchain.Chainbridge.Storage.{
  Config, Bridge, Event, fungible_transfer, non_fungible_transfer, generic_transfer,
}
use xxchain.Chainbridge.Transfers.{transfer_fungible, transfer_nonfungible, transfer_generic}
use xxchain.Chainbridge.Effects.{send, sent_to, Effects, here, one_effect}

-- What a transfer that deposits `event` at the nonce that it is given does to the storage.
abbrev pub Sends : Bridge → ℕ → (ℕ → Event) → DispatchResult Bridge → Type 0
Sends b dest event transfer =
    (get b.chain_nonces dest ≡ none → transfer b ≡ (err (chainbridge chain_not_whitelisted), b))
    × ((n : ℕ)
        → get b.chain_nonces dest ≡ some n
        → let nonce = wrapping_add u64_mod n 1 in
          transfer b ≡ (
            ok tt,
            record b {
              chain_nonces = insert b.chain_nonces dest nonce;
              events = event nonce ∷ b.events;
            },
          ))

module _ (b : Bridge) (dest : ℕ) where
  pub transfer_fungible-Sends :
      (resource_id to : List ℕ) (amount : ℕ)
      → Sends b dest
          (λ nonce. fungible_transfer dest nonce resource_id amount to)
          (transfer_fungible dest resource_id to amount)
  unfolding transfer_fungible
  transfer_fungible-Sends resource_id to amount = (λ absent. ground arith, λ n known. ground arith)

  pub transfer_nonfungible-Sends :
      (resource_id token_id to metadata : List ℕ)
      → Sends b dest
          (λ nonce. non_fungible_transfer dest nonce resource_id token_id to metadata)
          (transfer_nonfungible dest resource_id token_id to metadata)
  unfolding transfer_nonfungible
  transfer_nonfungible-Sends resource_id token_id to metadata =
      (λ absent. ground arith, λ n known. ground arith)

  pub transfer_generic-Sends :
      (resource_id metadata : List ℕ)
      → Sends b dest
          (λ nonce. generic_transfer dest nonce resource_id metadata)
          (transfer_generic dest resource_id metadata)
  unfolding transfer_generic
  transfer_generic-Sends resource_id metadata = (λ absent. ground arith, λ n known. ground arith)

  pub Sends-Effects :
      (config : Config) (event : ℕ → Event) (transfer : DispatchResult Bridge)
      → ((nonce : ℕ) → sent_to (event nonce) ≡ some (dest, nonce))
      → Sends b dest event transfer
      → Effects config b (transfer b).1
  Sends-Effects config event transfer addressed (refused, sends) =
      elim (Option-cases (get b.chain_nonces dest)) [
        | inl absent ↦ rw (refused absent) here
        | inr (n, known) ↦ rw (sends n known) (one_effect (send b dest n _ known (addressed _)))
      ]
