-- ===== src/Chainbridge/Call.antt =====
-- The calls of chainbridge/src/lib.rs as one function, and the histories of the runtime: calls from
-- any origin, outgoing transfers of other pallets, and new blocks, in any order.
use xxchain.Common.{ℕ, ◌≤◌, List, refl}
use xxchain.Frame.{Origin, DispatchResult}
use xxchain.Chainbridge.Storage.{
  Config, Runtime, on_bridge, Dispatch, fungible_transfer, non_fungible_transfer, generic_transfer,
}
use xxchain.Chainbridge.Admin
use xxchain.Chainbridge.Transfers.{transfer_fungible, transfer_nonfungible, transfer_generic}
use xxchain.Chainbridge.Voting
use xxchain.Chainbridge.Effects.{Effects, here, next_block, one_effect, Effects-trans}
use xxchain.Chainbridge.Effects.Acts.{Acts, Acts-on_bridge}
use xxchain.Chainbridge.Effects.Admin.{
  set_threshold-Effects, set_resource-Effects, remove_resource-Effects, whitelist_chain-Effects,
  add_relayer-Effects, remove_relayer-Effects,
}
use xxchain.Chainbridge.Effects.Transfers.{
  Sends-Effects, transfer_fungible-Sends, transfer_nonfungible-Sends, transfer_generic-Sends,
}
use xxchain.Chainbridge.Effects.Voting.{
  acknowledge_proposal-Acts, reject_proposal-Acts, eval_vote_state-Acts,
}

-- `enum Call`.
pub data Call : Type 0 where
  set_threshold : ℕ → Call
  set_resource : List ℕ → List ℕ → Call
  remove_resource : List ℕ → Call
  whitelist_chain : ℕ → Call
  add_relayer remove_relayer : ℕ → Call
  acknowledge_proposal reject_proposal : ℕ → ℕ → List ℕ → ℕ → Call
  eval_vote_state : ℕ → ℕ → ℕ → Call

module _ (config : Config) {W : Type 0} (dispatch : Dispatch W) where
  unfoldable pub run : Origin → Call → DispatchResult (Runtime W)
  run o (set_threshold t) = on_bridge (Admin.set_threshold config o t)
  run o (set_resource id method) = on_bridge (Admin.set_resource config o id method)
  run o (remove_resource id) = on_bridge (Admin.remove_resource config o id)
  run o (whitelist_chain id) = on_bridge (Admin.whitelist_chain config o id)
  run o (add_relayer v) = on_bridge (Admin.add_relayer config o v)
  run o (remove_relayer v) = on_bridge (Admin.remove_relayer config o v)
  run o (acknowledge_proposal nonce src_id r_id call) =
      Voting.acknowledge_proposal config dispatch o nonce src_id r_id call
  run o (reject_proposal nonce src_id r_id call) =
      Voting.reject_proposal config dispatch o nonce src_id r_id call
  run o (eval_vote_state nonce src_id prop) =
      Voting.eval_vote_state config dispatch o nonce src_id prop

  -- What happened between two states of the runtime. A call leaves what it wrote, also when it
  -- fails; that it is rolled back is a history without it.
  pub data History (start : Runtime W) : Runtime W → Type 0 where
    begin : History start start
    called :
        {rt : Runtime W} (o : Origin) (c : Call) → History start rt → History start (run o c rt).1
    sent_fungible :
        {rt : Runtime W} (dest : ℕ) (resource_id to : List ℕ) (amount : ℕ)
        → History start rt
        → History start (on_bridge (transfer_fungible dest resource_id to amount) rt).1
    sent_nonfungible :
        {rt : Runtime W} (dest : ℕ) (resource_id token_id to metadata : List ℕ)
        → History start rt
        → History start
            (on_bridge (transfer_nonfungible dest resource_id token_id to metadata) rt).1
    sent_generic :
        {rt : Runtime W} (dest : ℕ) (resource_id metadata : List ℕ)
        → History start rt
        → History start (on_bridge (transfer_generic dest resource_id metadata) rt).1
    -- The block number does not fall; what other pallets do to their own storage is arbitrary.
    block :
        {rt : Runtime W} (n : ℕ) (w : W)
        → rt.bridge.block_number ≤ n
        → History start rt
        → History start (record { bridge = record rt.bridge { block_number = n }; world = w })

module _ (config : Config) {W : Type 0} (dispatch : Dispatch W)
    (acts : (call : ℕ) (o : Origin) → Acts config (dispatch call o)) where
  run-Acts : (o : Origin) (c : Call) → Acts config (run config dispatch o c)
  unfolding run
  run-Acts o (set_threshold t) = Acts-on_bridge _ (λ b. set_threshold-Effects config b o t)
  run-Acts o (set_resource id method) =
      Acts-on_bridge _ (λ b. set_resource-Effects config b o id method)
  run-Acts o (remove_resource id) = Acts-on_bridge _ (λ b. remove_resource-Effects config b o id)
  run-Acts o (whitelist_chain id) = Acts-on_bridge _ (λ b. whitelist_chain-Effects config b o id)
  run-Acts o (add_relayer v) = Acts-on_bridge _ (λ b. add_relayer-Effects config b o v)
  run-Acts o (remove_relayer v) = Acts-on_bridge _ (λ b. remove_relayer-Effects config b o v)
  run-Acts o (acknowledge_proposal nonce src_id r_id call) =
      acknowledge_proposal-Acts config dispatch acts o nonce src_id r_id call
  run-Acts o (reject_proposal nonce src_id r_id call) =
      reject_proposal-Acts config dispatch acts o nonce src_id r_id call
  run-Acts o (eval_vote_state nonce src_id prop) =
      eval_vote_state-Acts config dispatch acts o nonce src_id prop

  pub History-Effects :
      {start rt : Runtime W}
      → History config dispatch start rt
      → Effects config start.bridge rt.bridge
  History-Effects begin = here
  History-Effects (called {rt = rt} o c h) =
      Effects-trans (History-Effects h) ((run-Acts o c).at rt)
  History-Effects (sent_fungible {rt = rt} dest resource_id to amount h) =
      Effects-trans (History-Effects h) (
        Sends-Effects rt.bridge dest config
          (λ nonce. fungible_transfer dest nonce resource_id amount to)
          (transfer_fungible dest resource_id to amount) (λ _. refl)
          (transfer_fungible-Sends rt.bridge dest resource_id to amount))
  History-Effects (sent_nonfungible {rt = rt} dest resource_id token_id to metadata h) =
      Effects-trans (History-Effects h) (
        Sends-Effects rt.bridge dest config
          (λ nonce. non_fungible_transfer dest nonce resource_id token_id to metadata)
          (transfer_nonfungible dest resource_id token_id to metadata) (λ _. refl)
          (transfer_nonfungible-Sends rt.bridge dest resource_id token_id to metadata))
  History-Effects (sent_generic {rt = rt} dest resource_id metadata h) =
      Effects-trans (History-Effects h) (
        Sends-Effects rt.bridge dest config
          (λ nonce. generic_transfer dest nonce resource_id metadata)
          (transfer_generic dest resource_id metadata) (λ _. refl)
          (transfer_generic-Sends rt.bridge dest resource_id metadata))
  History-Effects (block {rt = rt} n w le h) =
      Effects-trans (History-Effects h) (one_effect (next_block rt.bridge n le))
