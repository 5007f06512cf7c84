-- ===== src/Chainbridge/Effects/Admin.antt =====
-- The administration calls of chainbridge/src/lib.rs make only the changes of Effects.
use xxchain.Common.{
  ℕ, ◌≡◌, false, none, List, arith, inl, inr, Bool-cases, ltb, ◌==◌, nat_eq, list_eq,
}
use xxchain.Frame.{Origin, DispatchResult, ◌>>◌, ensure_root}
use xxchain.Frame.StorageMap.{get, insert, remove}
use xxchain.Chainbridge.Storage.{Config, Bridge, is_relayer, is_whitelisted}
use xxchain.Chainbridge.Admin.{
  set_relayer_threshold, register_resource, unregister_resource, register_relayer,
  unregister_relayer, ensure_admin, whitelist, set_threshold, set_resource, remove_resource,
  whitelist_chain, add_relayer, remove_relayer,
}
use xxchain.Chainbridge.Effects.{
  Effect, threshold, resource, join, leave, Effects, here, one_effect,
}

module _ (config : Config) (b : Bridge) where
  pub set_relayer_threshold-Effects : (t : ℕ) → Effects config b (set_relayer_threshold t b).1
  unfolding set_relayer_threshold
  set_relayer_threshold-Effects t = elim (Bool-cases (ltb 0 t)) [
    | inl positive ↦ rw positive (one_effect (threshold b t (ground arith)))
    | inr zero ↦ rw zero here
  ]

  pub register_relayer-Effects : (who : ℕ) → Effects config b (register_relayer who b).1
  unfolding register_relayer
  register_relayer-Effects who = elim (Bool-cases (is_relayer b who)) [
    | inl old ↦ rw old here
    | inr new ↦ rw new (one_effect (join b who new))
  ]

  pub unregister_relayer-Effects : (who : ℕ) → Effects config b (unregister_relayer who b).1
  unfolding unregister_relayer
  unregister_relayer-Effects who = elim (Bool-cases (is_relayer b who)) [
    | inl old ↦ rw old (one_effect (leave b who old))
    | inr new ↦ rw new here
  ]

  not_whitelisted : (id : ℕ) → is_whitelisted b id ≡ false → get b.chain_nonces id ≡ none
  unfolding is_whitelisted
  not_whitelisted id h = ground arith

  pub whitelist-Effects : (id : ℕ) → Effects config b (whitelist config id b).1
  unfolding whitelist
  whitelist-Effects id = elim (Bool-cases (id == config.chain_id)) [
    | inl own ↦ rw own here
    | inr foreign ↦ elim (Bool-cases (is_whitelisted b id)) [
      | inl old ↦ rw (foreign, old) here
      | inr new ↦
          rw (foreign, new)
            (one_effect (Effect.whitelist b id (ground arith) (not_whitelisted id new)))
    ]
  ]

  -- An administration call is the change itself, behind the test of its origin.
  admin-Effects :
      (origin : Origin) (m : DispatchResult Bridge)
      → Effects config b (m b).1
      → Effects config b ((ensure_admin config origin >> m) b).1
  unfolding ensure_admin
  admin-Effects origin m change = elim (Bool-cases (config.admin_origin origin)) [
    | inl admin ↦ rw admin change
    | inr other ↦ rw other (by_root origin)
  ]
    where
      by_root : (o : Origin) → Effects config b ((ensure_root o >> m) b).1
      by_root Origin.root = change
      by_root _ = here

  pub set_threshold-Effects : (o : Origin) (t : ℕ) → Effects config b (set_threshold config o t b).1
  unfolding set_threshold
  set_threshold-Effects o t =
      admin-Effects o (set_relayer_threshold t) (set_relayer_threshold-Effects t)

  pub set_resource-Effects :
      (o : Origin) (id method : List ℕ) → Effects config b (set_resource config o id method b).1
  unfolding set_resource
  set_resource-Effects o id method =
      admin-Effects o (register_resource id method)
        (one_effect (resource b (insert b.resources id method)))

  pub remove_resource-Effects :
      (o : Origin) (id : List ℕ) → Effects config b (remove_resource config o id b).1
  unfolding remove_resource
  remove_resource-Effects o id =
      admin-Effects o (unregister_resource id) (one_effect (resource b (remove b.resources id)))

  pub whitelist_chain-Effects :
      (o : Origin) (id : ℕ) → Effects config b (whitelist_chain config o id b).1
  unfolding whitelist_chain
  whitelist_chain-Effects o id = admin-Effects o (whitelist config id) (whitelist-Effects id)

  pub add_relayer-Effects : (o : Origin) (v : ℕ) → Effects config b (add_relayer config o v b).1
  unfolding add_relayer
  add_relayer-Effects o v = admin-Effects o (register_relayer v) (register_relayer-Effects v)

  pub remove_relayer-Effects :
      (o : Origin) (v : ℕ) → Effects config b (remove_relayer config o v b).1
  unfolding remove_relayer
  remove_relayer-Effects o v = admin-Effects o (unregister_relayer v) (unregister_relayer-Effects v)
