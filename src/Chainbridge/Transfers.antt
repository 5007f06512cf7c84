-- ===== src/Chainbridge/Transfers.antt =====
-- Outgoing transfers of chainbridge/src/lib.rs, called by other pallets.
use xxchain.Common.{ℕ, Option, none, some, List, u64_mod, wrapping_add, nat_eq}
use xxchain.Frame.{
  ok, chainbridge, chain_not_whitelisted, Exec, DispatchResult, ensure, ◌>>=◌, ◌>>◌,
}
use xxchain.Frame.StorageMap.{get, insert}
use xxchain.Chainbridge.Storage.{
  Bridge, fungible_transfer, non_fungible_transfer, generic_transfer, deposit_event, is_whitelisted,
}

-- `unwrap_or_default`
abbrev nonce_or_default : Option ℕ → ℕ
nonce_or_default none = 0
nonce_or_default (some n) = n

unfoldable pub bump_nonce : ℕ → Exec Bridge ℕ
bump_nonce id b =
    let nonce = wrapping_add u64_mod (nonce_or_default (get b.chain_nonces id)) 1 in
    (ok nonce, record b { chain_nonces = insert b.chain_nonces id nonce })

unfoldable pub transfer_fungible : ℕ → List ℕ → List ℕ → ℕ → DispatchResult Bridge
unfolding bump_nonce is_whitelisted
transfer_fungible dest_id resource_id to amount b =
    (do
      ensure (is_whitelisted b dest_id) (chainbridge chain_not_whitelisted)
      nonce ← bump_nonce dest_id
      deposit_event (fungible_transfer dest_id nonce resource_id amount to))
      b

unfoldable pub transfer_nonfungible : ℕ → List ℕ → List ℕ → List ℕ → List ℕ → DispatchResult Bridge
unfolding bump_nonce is_whitelisted
transfer_nonfungible dest_id resource_id token_id to metadata b =
    (do
      ensure (is_whitelisted b dest_id) (chainbridge chain_not_whitelisted)
      nonce ← bump_nonce dest_id
      deposit_event (non_fungible_transfer dest_id nonce resource_id token_id to metadata))
      b

unfoldable pub transfer_generic : ℕ → List ℕ → List ℕ → DispatchResult Bridge
unfolding bump_nonce is_whitelisted
transfer_generic dest_id resource_id metadata b =
    (do
      ensure (is_whitelisted b dest_id) (chainbridge chain_not_whitelisted)
      nonce ← bump_nonce dest_id
      deposit_event (generic_transfer dest_id nonce resource_id metadata))
      b
