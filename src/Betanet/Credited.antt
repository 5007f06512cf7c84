-- ===== src/Betanet/Credited.antt =====
-- What crediting one leftover claim in xx-betanet-rewards/src/lib.rs does to the books of the claims
-- pallet.
use xxchain.Common.{
  ℕ, ◌+◌, ◌%◌, ◌≤◌, ◌<◌, ◌≡◌, refl, ap, ◌∙◌, false, Option, none, some, arith, list_eq,
  list_beq_iff, nat_eq, inl, inr, Bool-cases, Option-cases, ◌==◌, u128_mod,
}
use xxchain.Frame.Perbill.{Perbill}
use xxchain.Frame.StorageMap.{
  StorageMap, get, insert, empty, IsProper, insert-IsProper, get-insert, get-insert_self,
}
use xxchain.Frame.StorageMap.Totals.{total, total-insert_new, total-insert_over, total-remove}
use xxchain.Claims.Storage.{Claims, EthereumAddress}
use xxchain.Claims.Books.{InOrder, claimable}
use xxchain.Betanet.Pallet.{Betanet}
use xxchain.Betanet.Enact.{Externals, add_reward, credit_claim, lock_claim}

-- A claim with the reward that is on record for its address; a reward alone makes no claim.
abbrev pub boosted : Option ℕ → Option ℕ → Option ℕ
boosted none reward = none
boosted (some claim) none = some claim
boosted (some claim) (some reward) = some (claim + reward)

pub boosted-none : (claim : Option ℕ) → claim ≡ boosted claim none
boosted-none none = refl
boosted-none (some claim) = refl

abbrev pub sum_of : StorageMap EthereumAddress ℕ → ℕ
sum_of m = total (λ (v : ℕ). v) m

value_le :
    (m : StorageMap EthereumAddress ℕ) (k : EthereumAddress) (v : ℕ)
    → IsProper m
    → get m k ≡ some v
    → v ≤ sum_of m
value_le m k v p h = omega (arith, total-remove (λ (x : ℕ). x) m k p h)

module _ (p : Perbill) (enactment_block : ℕ) {Bank : Type 0} (externals : Externals Bank) where
  -- The parts of the storage that a leftover claim touches, with the rewards that are left.
  pub record Holds (s : Claims (Betanet Bank)) (m : StorageMap EthereumAddress ℕ)
      (t : Claims (Betanet Bank)) : Type 0 where
    pub order : InOrder t
    pub sum : t.total + sum_of m ≡ s.total + sum_of s.rewards
    pub boost :
        (a : EthereumAddress)
        → boosted (get t.claims a) (get m a) ≡ boosted (get s.claims a) (get s.rewards a)
    pub rewards : t.rewards ≡ empty
    pub events : t.events ≡ s.events
    pub accounts : t.world.accounts ≡ empty

  pub record SameBooks (s t : Claims (Betanet Bank)) : Type 0 where
    pub claims : t.claims ≡ s.claims
    pub total : t.total ≡ s.total
    pub rewards : t.rewards ≡ s.rewards
    pub events : t.events ≡ s.events
    pub accounts : t.world.accounts ≡ s.world.accounts

  pub lock_claim-SameBooks :
      (address : EthereumAddress) (reward : ℕ) (s : Claims (Betanet Bank))
      → SameBooks s (lock_claim p enactment_block externals address reward s)
  unfolding lock_claim
  lock_claim-SameBooks address reward s = record {
    claims = ground arith;
    total = ground arith;
    rewards = ground arith;
    events = ground arith;
    accounts = ground arith;
  }

  module _ (s t : Claims (Betanet Bank)) (k : EthereumAddress) (v : ℕ)
      (m : StorageMap EthereumAddress ℕ) (proper : IsProper m) (new : get m k ≡ none)
      (fits : s.total + sum_of s.rewards < u128_mod) (held : Holds s (insert m k v) t) where
    sum_left : sum_of (insert m k v) ≡ v + sum_of m
    sum_left = total-insert_new (λ (x : ℕ). x) m k v new

    unfoldable pub t' : Claims (Betanet Bank)
    t' = credit_claim p enactment_block externals k v t

    total_after : t'.total ≡ t.total + v
    unfolding t' credit_claim
    total_after = omega (arith, sum_left, held.sum, fits)

    claims_missing : get t.claims k ≡ none → t'.claims ≡ t.claims
    unfolding t' credit_claim
    claims_missing missing = rw (add_reward, missing) refl

    claims_stored : (c : ℕ) → get t.claims k ≡ some c → t'.claims ≡ insert t.claims k (c + v)
    unfolding t' credit_claim claimable
    claims_stored c stored =
        let small : c + v < u128_mod = omega (
          arith,
          value_le t.claims k c held.order.proper stored,
          held.order.covered,
          sum_left,
          held.sum,
          fits,
        ) in
        let kept : (c + v) % u128_mod ≡ c + v = omega (arith, small) in
        rw (add_reward, stored) (ap (λ (x : ℕ). insert t.claims k x) kept)

    in_order : InOrder t'
    unfolding claimable
    in_order = elim (Option-cases (get t.claims k)) [
      | inl missing ↦ record {
        proper = rw (claims_missing missing) held.order.proper;
        covered = rw (claims_missing missing) (omega (arith, held.order.covered, total_after));
      }
      | inr (c, stored) ↦ record {
        proper = rw (claims_stored c stored) (insert-IsProper t.claims k (c + v) held.order.proper);
        covered = rw (claims_stored c stored) (
            omega (
              arith,
              held.order.covered,
              total_after,
              total-insert_over (λ (x : ℕ). x) t.claims k (c + v) held.order.proper stored,
            ));
      }
    ]

    -- At the address of the reward, and at the others.
    boost_here :
        (a : EthereumAddress)
        → k ≡ a
        → boosted (get t'.claims a) (get m a) ≡ boosted (get t.claims a) (get (insert m k v) a)
    boost_here a e = rw (← e) (elim (Option-cases (get t.claims k)) [
      | inl missing ↦ rw (claims_missing missing, missing) refl
      | inr (c, stored) ↦
          rw
            (
              claims_stored c stored,
              stored,
              new,
              get-insert_self m k v,
              get-insert_self t.claims k (c + v),
            )
            refl
    ])

    boost_there :
        (a : EthereumAddress)
        → (k == a) ≡ false
        → boosted (get t'.claims a) (get m a) ≡ boosted (get t.claims a) (get (insert m k v) a)
    boost_there a other =
        let rest : get (insert m k v) a ≡ get m a = get-insert m k a v ∙ rw other refl in
        elim (Option-cases (get t.claims k)) [
          | inl missing ↦ rw (claims_missing missing, rest) refl
          | inr (c, stored) ↦
              let same : get (insert t.claims k (c + v)) a ≡ get t.claims a =
                get-insert t.claims k a (c + v) ∙ rw other refl in
              rw (claims_stored c stored, rest, same) refl
        ]

    pub credited-Holds : Holds s m t'
    credited-Holds = record {
      order = in_order;
      sum = omega (arith, sum_left, held.sum, total_after);
      boost = λ a. elim (Bool-cases (k == a)) [
        | inl hit ↦ boost_here a ((list_beq_iff k a).0 hit) ∙ held.boost a
        | inr other ↦ boost_there a other ∙ held.boost a
      ];
      rewards = unfold t' credit_claim in held.rewards;
      events = unfold t' credit_claim in held.events;
      accounts = unfold t' credit_claim in held.accounts;
    }
