-- ===== src/Network/Delivery.antt =====
-- What reaches an account at the end of a transfer over the bridge: relayers vote in
-- chainbridge/src/lib.rs, swap/src/lib.rs pays, in the runtime of runtime/xxnetwork/src/lib.rs.
use xxchain.Common.{
  ℕ, ◌+◌, ◌-◌, ◌≤◌, ◌≡◌, ◌≢◌, refl, ap, ◌∙◌, true, false, some, List, ◌∷◌, arith, length, pair_eq,
  nat_eq,
}
use xxchain.Frame.{Origin, DispatchResult, Result, ok, bind-ok, ◌>>◌}
use xxchain.Frame.Currency.{Currency, IsLawful, LeavesRest}
use xxchain.Frame.StorageMap.{get, get-insert_self}
use xxchain.Chainbridge.Storage.{
  ProposalVotes, approved, vote_key, Runtime, is_relayer, is_whitelisted, resource_exists, vote_for,
  proposal_approved, proposal_succeeded, on_bridge, deposit_event,
}
use xxchain.Chainbridge.Votes.{has_voted}
use xxchain.Chainbridge.Voting.{acknowledge_proposal, cast_vote, ensure_bridge, finalize_execution}
use xxchain.Chainbridge.Execution.{IsOpen, marked}
use xxchain.Chainbridge.Acknowledge.{current, voted, acknowledge_executes}
use xxchain.Swap.Authority
use xxchain.Swap.Pallet.{Config, transfer}
use xxchain.Network.Filter.{RuntimeCall}
use xxchain.Network.Dispatcher.{World, dispatch}

module _ (config : Config) {Bank : Type 0} (currency : Currency Bank) (lawful : IsLawful currency)
    (decode : ℕ → RuntimeCall) (filtered : ℕ)
    (others : RuntimeCall → Origin → DispatchResult (Runtime (World Bank))) where
  open currency use {free_balance, existential_deposit}

  -- The amount has left the bridge's account for the recipient's, no other balance has changed, the
  -- proposal is stored as approved, and the bridge has reported the vote, the approval and the success.
  pub record Delivered (who nonce src_id prop to amount : ℕ) (s t : Runtime (World Bank))
      : Type 0 where
    pub covered : amount ≤ free_balance s.world.bank config.bridge.account_id
    pub received : free_balance t.world.bank to ≡ free_balance s.world.bank to + amount
    pub left :
        LeavesRest existential_deposit
          (free_balance s.world.bank config.bridge.account_id - amount)
          (free_balance t.world.bank config.bridge.account_id)
    pub rest :
        (x : ℕ)
        → x ≢ config.bridge.account_id
        → x ≢ to
        → free_balance t.world.bank x ≡ free_balance s.world.bank x
    pub decided :
        (v : ProposalVotes) × (get t.bridge.votes (vote_key src_id nonce prop) ≡ some v)
        × (v.status ≡ approved)
    pub reported :
        t.bridge.events
        ≡ proposal_succeeded src_id nonce
          ∷ proposal_approved src_id nonce
          ∷ vote_for src_id nonce who
          ∷ s.bridge.events

  module _ (prop to amount : ℕ)
      (is_transfer : decode prop ≡ RuntimeCall.swap (Authority.transfer to amount)) where
    -- The dispatch pays from the bridge's account.
    dispatch_pays :
        (rt : Runtime (World Bank))
        → let paid = currency.transfer config.bridge.account_id to amount rt.world.bank in
          paid.0 ≡ ok tt
          → dispatch config currency decode filtered others prop
              (Origin.signed config.bridge.account_id)
              rt
            ≡ (ok tt, record rt { world = record rt.world { bank = paid.1 } })
    unfolding Authority.run transfer ensure_bridge
    dispatch_pays rt h =
        let paid = currency.transfer config.bridge.account_id to amount rt.world.bank in
        let itself : nat_eq.same config.bridge.account_id config.bridge.account_id ≡ true =
          ground arith in
        let after : Runtime (World Bank) = record rt {
          world = record rt.world { bank = paid.1 };
        } in
        let beside : Result (Unit {0}) → Result (Unit {0}) × Runtime (World Bank) =
          λ r. (r, after) in
        rw (is_transfer, itself) (ap beside h)

    finalize_pays :
        (src_id nonce : ℕ) (rt : Runtime (World Bank))
        → let paid = currency.transfer config.bridge.account_id to amount rt.world.bank in
          paid.0 ≡ ok tt
          → finalize_execution config.bridge
              (dispatch config currency decode filtered others)
              src_id
              nonce
              prop
              rt
            ≡ (
              ok tt,
              record {
                bridge = record rt.bridge {
                  events =
                      proposal_succeeded src_id nonce
                      ∷ proposal_approved src_id nonce
                      ∷ rt.bridge.events;
                };
                world = record rt.world { bank = paid.1 };
              },
            )
    unfolding finalize_execution
    finalize_pays src_id nonce rt h =
        bind-ok
          (on_bridge (deposit_event (proposal_approved src_id nonce))
            >> dispatch config currency decode filtered others prop
                (Origin.signed config.bridge.account_id))
          (λ _. on_bridge (deposit_event (proposal_succeeded src_id nonce)))
          (dispatch_pays
            (on_bridge {W = World Bank} (deposit_event (proposal_approved src_id nonce)) rt).1 h)

    -- A proposal that reads as a transfer of the swap pallet, when a relayer's first vote on it, open, for
    -- a whitelisted chain and an existing resource, makes the votes in favour reach the threshold,
    -- delivers the amount to the recipient, as `Delivered` says, provided that the recipient is not the
    -- bridge's own account and the currency makes the transfer.
    pub acknowledge-Delivers :
        (who nonce src_id : ℕ) (r_id : List ℕ) (rt : Runtime (World Bank))
        → let b = rt.bridge in
          let v = current config.bridge who nonce src_id prop b in
          let run =
            acknowledge_proposal config.bridge
              (dispatch config currency decode filtered others)
              (Origin.signed who)
              nonce
              src_id
              r_id
              prop in
          is_relayer b who ≡ true
          → is_whitelisted b src_id ≡ true
          → resource_exists b r_id ≡ true
          → IsOpen v b.block_number
          → has_voted v who ≡ false
          → b.relayer_threshold ≤ length v.votes_for + 1
          → config.bridge.account_id ≢ to
          → (currency.transfer config.bridge.account_id to amount rt.world.bank).0 ≡ ok tt
          → ((run rt).0 ≡ ok tt) × Delivered who nonce src_id prop to amount rt (run rt).1
    acknowledge-Delivers who nonce src_id r_id rt relayer chain resource is_open first enough ne h =
        let source = config.bridge.account_id in
        let v = cast_vote true who (current config.bridge who nonce src_id prop rt.bridge) in
        let key = vote_key src_id nonce prop in
        let voted_bridge = voted config.bridge who nonce src_id prop rt.bridge in
        let executed =
          acknowledge_executes config.bridge (dispatch config currency decode filtered others) who
            nonce src_id r_id prop rt relayer chain resource is_open first enough in
        let paid =
          finalize_pays src_id nonce (record rt { bridge = marked key v voted_bridge }) h in
        rw (executed ∙ paid) (
          refl,
          record {
            covered = lawful.transfer_covered source to amount rt.world.bank ne h;
            received = lawful.transfer_credits source to amount rt.world.bank ne h;
            left = lawful.transfer_debits source to amount rt.world.bank ne h;
            rest = λ x nx nt. lawful.transfer_others source to amount x rt.world.bank nx nt;
            decided = (
              record v { status = approved },
              get-insert_self voted_bridge.votes key (record v { status = approved }),
              refl,
            );
            reported = refl;
          },
        )
