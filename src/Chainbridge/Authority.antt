-- ===== src/Chainbridge/Authority.antt =====
-- Who may call what in chainbridge/src/lib.rs.
use xxchain.Common.{
  ℕ, ◌≡◌, refl, Bool, true, false, ◌||◌, ◌&&◌, List, ap, arith, inl, inr, Bool-cases,
}
use xxchain.Frame.{
  Refuses, Origin, DispatchResult, Result, is_root, ◌>>=◌, ◌>>◌, ensure, ensure_signed, bad_origin,
  chainbridge, must_be_relayer, chain_not_whitelisted, resource_does_not_exist,
}
use xxchain.Chainbridge.Storage.{
  Config, Bridge, Runtime, Dispatch, on_bridge, is_relayer, is_whitelisted, resource_exists,
}
use xxchain.Chainbridge.Call.{
  Call, set_threshold, set_resource, remove_resource, whitelist_chain, add_relayer, remove_relayer,
  acknowledge_proposal, reject_proposal, eval_vote_state, run,
}
use xxchain.Chainbridge.Admin
use xxchain.Chainbridge.Admin.{ensure_admin}
use xxchain.Chainbridge.Voting

abbrev pub is_signed_relayer : Bridge → Origin → Bool
is_signed_relayer b (Origin.signed who) = is_relayer b who
is_signed_relayer b _ = false

abbrev pub is_signed : Origin → Bool
is_signed (Origin.signed who) = true
is_signed _ = false

-- The origin that each call asks for.
abbrev pub permitted : Config → Bridge → Origin → Call → Bool
permitted config b o (acknowledge_proposal nonce src_id r_id call) =
    is_signed_relayer b o && is_whitelisted b src_id && resource_exists b r_id
permitted config b o (reject_proposal nonce src_id r_id call) =
    is_signed_relayer b o && is_whitelisted b src_id && resource_exists b r_id
permitted config b o (eval_vote_state nonce src_id prop) = is_signed o
permitted config b o _ = config.admin_origin o || is_root o

-- A refusal by the pallet's part is one by the runtime.
on_bridge-Refuses :
    {W : Type 0} (m : DispatchResult Bridge) (rt : Runtime W)
    → Refuses m rt.bridge
    → Refuses (on_bridge m) rt
on_bridge-Refuses m rt (e, same) =
    (e, ap (λ (x : Result (Unit {0}) × Bridge). (x.0, record rt { bridge = x.1 })) same)

admin-Refuses :
    (config : Config) (o : Origin) (m : DispatchResult Bridge) (b : Bridge)
    → (config.admin_origin o || is_root o) ≡ false
    → Refuses (ensure_admin config o >> m) b
unfolding ensure_admin
admin-Refuses config Origin.root m b h = absurd (ground arith)
admin-Refuses config o m b h = (bad_origin, ground arith)

-- The guards of a vote, in their order.
guarded-Refuses :
    {W : Type 0} (o : Origin) (b : Bridge) (src_id : ℕ) (r_id : List ℕ)
    (body : ℕ → DispatchResult (Runtime W)) (rt : Runtime W)
    → (is_signed_relayer b o && is_whitelisted b src_id && resource_exists b r_id) ≡ false
    → Refuses
        (do
          who ← ensure_signed o
          ensure (is_relayer b who) (chainbridge must_be_relayer)
          ensure (is_whitelisted b src_id) (chainbridge chain_not_whitelisted)
          ensure (resource_exists b r_id) (chainbridge resource_does_not_exist)
          body who)
        rt
guarded-Refuses (Origin.signed who) b src_id r_id body rt h = elim (Bool-cases (is_relayer b who)) [
  | inl relayer ↦ elim (Bool-cases (is_whitelisted b src_id)) [
    | inl known ↦ (chainbridge resource_does_not_exist, ground arith)
    | inr unknown ↦ (chainbridge chain_not_whitelisted, ground arith)
  ]
  | inr stranger ↦ (chainbridge must_be_relayer, ground arith)
]
guarded-Refuses o b src_id r_id body rt h = (bad_origin, refl)

module _ (config : Config) {W : Type 0} (dispatch : Dispatch W) (rt : Runtime W) where
  eval-Refuses :
      (o : Origin) (body : DispatchResult (Runtime W))
      → is_signed o ≡ false
      → Refuses (ensure_signed o >> body) rt
  eval-Refuses (Origin.signed who) body h = cc
  eval-Refuses o body h = (bad_origin, refl)

  admin_call-Refuses :
      (o : Origin) (m : DispatchResult Bridge)
      → (config.admin_origin o || is_root o) ≡ false
      → Refuses (on_bridge (ensure_admin config o >> m)) rt
  admin_call-Refuses o m h =
      on_bridge-Refuses (ensure_admin config o >> m) rt (admin-Refuses config o m rt.bridge h)

  -- A call whose origin is not permitted (for the administration calls, the administrator or root;
  -- for a vote, a signed relayer, on a whitelisted chain and an existing resource; for an
  -- evaluation, any signed account) fails and changes nothing, neither the pallet's storage nor any
  -- other.
  pub run-Refuses :
      (o : Origin) (c : Call)
      → permitted config rt.bridge o c ≡ false
      → Refuses (run config dispatch o c) rt
  unfolding run Admin.set_threshold Admin.set_resource Admin.remove_resource Admin.whitelist_chain
      Admin.add_relayer Admin.remove_relayer Voting.acknowledge_proposal Voting.reject_proposal
      Voting.eval_vote_state
  run-Refuses o (set_threshold t) h = admin_call-Refuses o (Admin.set_relayer_threshold t) h
  run-Refuses o (set_resource id method) h =
      admin_call-Refuses o (Admin.register_resource id method) h
  run-Refuses o (remove_resource id) h = admin_call-Refuses o (Admin.unregister_resource id) h
  run-Refuses o (whitelist_chain id) h = admin_call-Refuses o (Admin.whitelist config id) h
  run-Refuses o (add_relayer v) h = admin_call-Refuses o (Admin.register_relayer v) h
  run-Refuses o (remove_relayer v) h = admin_call-Refuses o (Admin.unregister_relayer v) h
  run-Refuses o (acknowledge_proposal nonce src_id r_id call) h =
      guarded-Refuses o rt.bridge src_id r_id
        (λ who. Voting.vote_for config dispatch who nonce src_id call) rt h
  run-Refuses o (reject_proposal nonce src_id r_id call) h =
      guarded-Refuses o rt.bridge src_id r_id
        (λ who. Voting.vote_against config dispatch who nonce src_id call) rt h
  run-Refuses o (eval_vote_state nonce src_id prop) h =
      eval-Refuses o (Voting.try_resolve_proposal config dispatch nonce src_id prop) h
