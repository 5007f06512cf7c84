-- ===== src/Chainbridge/Admin.antt =====
-- The administration calls of chainbridge/src/lib.rs: threshold, resources, chains, relayers.
use xxchain.Common.{
  ℕ, true, not, List, ltb, ◌==◌, u32_mod, wrapping_add, wrapping_sub, nat_eq, list_eq,
}
use xxchain.Frame.{
  chainbridge, invalid_chain_id, invalid_threshold, chain_already_whitelisted,
  relayer_already_exists, relayer_invalid, DispatchResult, ensure, modify, ◌>>◌, Origin,
  origin_or_root,
}
use xxchain.Frame.StorageMap.{insert, remove}
use xxchain.Chainbridge.Storage.{
  Config, Bridge, relayer_threshold_changed, chain_whitelisted, relayer_added, relayer_removed,
  deposit_event, is_relayer, is_whitelisted,
}

unfoldable pub set_relayer_threshold : ℕ → DispatchResult Bridge
set_relayer_threshold threshold = do
  ensure (ltb 0 threshold) (chainbridge invalid_threshold)
  modify (λ b. record b { relayer_threshold = threshold })
  deposit_event (relayer_threshold_changed threshold)

unfoldable pub register_resource : List ℕ → List ℕ → DispatchResult Bridge
register_resource id method = modify (λ b. record b { resources = insert b.resources id method })

unfoldable pub unregister_resource : List ℕ → DispatchResult Bridge
unregister_resource id = modify (λ b. record b { resources = remove b.resources id })

unfoldable pub register_relayer : ℕ → DispatchResult Bridge
unfolding is_relayer
register_relayer relayer b =
    (do
      ensure (not (is_relayer b relayer)) (chainbridge relayer_already_exists)
      modify (λ b. record b { relayers = insert b.relayers relayer true })
      modify (λ b. record b { relayer_count = wrapping_add u32_mod b.relayer_count 1 })
      deposit_event (relayer_added relayer))
      b

unfoldable pub unregister_relayer : ℕ → DispatchResult Bridge
unfolding is_relayer
unregister_relayer relayer b =
    (do
      ensure (is_relayer b relayer) (chainbridge relayer_invalid)
      modify (λ b. record b { relayers = remove b.relayers relayer })
      modify (λ b. record b { relayer_count = wrapping_sub u32_mod b.relayer_count 1 })
      deposit_event (relayer_removed relayer))
      b

module _ (config : Config) where
  unfoldable pub ensure_admin : Origin → DispatchResult Bridge
  ensure_admin = origin_or_root config.admin_origin

  unfoldable pub whitelist : ℕ → DispatchResult Bridge
  unfolding is_whitelisted
  whitelist id b =
      (do
        ensure (not (id == config.chain_id)) (chainbridge invalid_chain_id)
        ensure (not (is_whitelisted b id)) (chainbridge chain_already_whitelisted)
        modify (λ b. record b { chain_nonces = insert b.chain_nonces id 0 })
        deposit_event (chain_whitelisted id))
        b

  unfoldable pub set_threshold : Origin → ℕ → DispatchResult Bridge
  unfolding ensure_admin set_relayer_threshold
  set_threshold origin threshold = do ensure_admin origin; set_relayer_threshold threshold

  unfoldable pub set_resource : Origin → List ℕ → List ℕ → DispatchResult Bridge
  unfolding ensure_admin register_resource
  set_resource origin id method = do ensure_admin origin; register_resource id method

  unfoldable pub remove_resource : Origin → List ℕ → DispatchResult Bridge
  unfolding ensure_admin unregister_resource
  remove_resource origin id = do ensure_admin origin; unregister_resource id

  unfoldable pub whitelist_chain : Origin → ℕ → DispatchResult Bridge
  unfolding ensure_admin whitelist
  whitelist_chain origin id = do ensure_admin origin; whitelist id

  unfoldable pub add_relayer : Origin → ℕ → DispatchResult Bridge
  unfolding ensure_admin register_relayer
  add_relayer origin v = do ensure_admin origin; register_relayer v

  unfoldable pub remove_relayer : Origin → ℕ → DispatchResult Bridge
  unfolding ensure_admin unregister_relayer
  remove_relayer origin v = do ensure_admin origin; unregister_relayer v
