-- ===== src/Betanet/Leftovers.antt =====
-- What the enactment in xx-betanet-rewards/src/lib.rs does to the books of the claims pallet.
use xxchain.Common.{ℕ, ◌+◌, ◌<◌, ◌≡◌, refl, ap, ◌∙◌, sym, none, arith, list_eq, nat_eq, u128_mod}
use xxchain.Frame.Perbill.{Perbill}
use xxchain.Frame.StorageMap.{StorageMap, get, insert, empty, IsProper, get-empty}
use xxchain.Frame.StorageMap.Totals.{total-empty}
use xxchain.Frame.StorageMap.Drain.{for_each_inv}
use xxchain.Claims.Storage.{Claims, EthereumAddress}
use xxchain.Claims.Books.{InOrder}
use xxchain.Betanet.Pallet.{Betanet}
use xxchain.Betanet.Enact.{
  Externals, process_leftover_claim, process_rewards, process_claims, enact_program,
}
use xxchain.Betanet.Credited.{
  boosted, boosted-none, sum_of, Holds, SameBooks, lock_claim-SameBooks, t', credited-Holds,
}

module _ (p : Perbill) (enactment_block : ℕ) {Bank : Type 0} (externals : Externals Bank) where
  same-Holds :
      (s t u : Claims (Betanet Bank)) (m : StorageMap EthereumAddress ℕ)
      → SameBooks p enactment_block externals t u
      → Holds p enactment_block externals s m t
      → Holds p enactment_block externals s m u
  same-Holds s t u m same held = record {
    order = record {
      proper = rw same.claims held.order.proper;
      covered = rw (same.claims, same.total) held.order.covered;
    };
    sum = rw same.total held.sum;
    boost = rw same.claims held.boost;
    rewards = same.rewards ∙ held.rewards;
    events = same.events ∙ held.events;
    accounts = same.accounts ∙ held.accounts;
  }

  leftover-Holds :
      (s : Claims (Betanet Bank)) (k : EthereumAddress) (v : ℕ) (m : StorageMap EthereumAddress ℕ)
      (t : Claims (Betanet Bank))
      → s.total + sum_of s.rewards < u128_mod
      → IsProper m
      → get m k ≡ none
      → Holds p enactment_block externals s (insert m k v) t
      → Holds p enactment_block externals s m
          (process_leftover_claim p enactment_block externals k v t)
  unfolding process_leftover_claim t'
  leftover-Holds s k v m t fits proper new held =
      same-Holds s (t' p enactment_block externals s t k v m proper new fits held) _ m
        (lock_claim-SameBooks p enactment_block externals k v
          (t' p enactment_block externals s t k v m proper new fits held))
        (credited-Holds p enactment_block externals s t k v m proper new fits held)

  begin-Holds :
      (s : Claims (Betanet Bank))
      → InOrder s
      → Holds p enactment_block externals s s.rewards
          (record (process_rewards p enactment_block externals s) { rewards = empty })
  unfolding process_rewards
  begin-Holds s order = record {
    order = record { proper = order.proper; covered = order.covered };
    sum = refl;
    boost = λ a. refl;
    rewards = refl;
    events = refl;
    accounts = refl;
  }

  -- The enactment settles every leftover claim: it adds up all rewards on record into the total,
  -- raises the claim of each address by the reward of that address, keeps the stored claims within
  -- the total, and leaves no reward and no account in the program, as long as the rewards do not
  -- carry the total to the bound of the balance type. No payment of a claim is reported.
  pub enact_program-Settles :
      (s : Claims (Betanet Bank))
      → InOrder s
      → IsProper s.rewards
      → s.total + sum_of s.rewards < u128_mod
      → let t = enact_program p enactment_block externals s in
        InOrder t
        × (t.total ≡ s.total + sum_of s.rewards)
        × ((a : EthereumAddress) → get t.claims a ≡ boosted (get s.claims a) (get s.rewards a))
        × (t.rewards ≡ empty)
        × (t.world.accounts ≡ empty)
        × (t.events ≡ s.events)
  unfolding enact_program process_claims process_rewards
  enact_program-Settles s order proper fits =
      let start = process_rewards p enactment_block externals s in
      let held : Holds p enactment_block externals s empty
          (enact_program p enactment_block externals s) =
        for_each_inv (Holds p enactment_block externals s)
          (process_leftover_claim p enactment_block externals)
          (λ k v m t proper new held. leftover-Holds s k v m t fits proper new held) s.rewards
          (record start { rewards = empty }) proper (begin-Holds s order) in
      let none_left : sum_of empty ≡ 0 = total-empty EthereumAddress ℕ (λ (x : ℕ). x) in
      (
        held.order,
        omega (arith, held.sum, none_left),
        λ a. boosted-none _ ∙ ap (boosted _) (sym (get-empty a)) ∙ held.boost a,
        held.rewards,
        held.accounts,
        held.events,
      )
