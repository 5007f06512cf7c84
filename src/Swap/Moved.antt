-- ===== src/Swap/Moved.antt =====
-- What `transfer_native` of swap/src/lib.rs promises: where the amount and the fee go, and what the
-- bridge announces.
use xxchain.Common.{
  ℕ, ◌+◌, ◌-◌, ◌≤◌, ◌≡◌, ◌≢◌, Option, none, some, List, ◌∷◌, u64_mod, wrapping_add, nat_eq,
}
use xxchain.Frame.StorageMap.{get, insert}
use xxchain.Frame.Currency.{Currency, LeavesRest}
use xxchain.Chainbridge.Storage.{Bridge, fungible_transfer}
use xxchain.Swap.Pallet.{Config, Swap}

-- What the fee takes from the source: nothing where no destination is set.
abbrev pub charge : ℕ → Option ℕ → ℕ
charge fee none = 0
charge fee (some _) = fee

-- The destination, if any, is another account than `x`.
abbrev pub OtherThan : ℕ → Option ℕ → Type 0
OtherThan x none = Unit
OtherThan x (some d) = d ≢ x

-- The bridge has announced the amount under the next nonce of the destination chain, and has
-- changed nothing else.
abbrev pub Announces : Config → List ℕ → ℕ → ℕ → Bridge → Bridge → Type 0
Announces config recipient dest_id amount b c =
    (n : ℕ) × (get b.chain_nonces dest_id ≡ some n)
    × (c ≡ record b {
      chain_nonces = insert b.chain_nonces dest_id (wrapping_add u64_mod n 1);
      events =
          fungible_transfer dest_id (wrapping_add u64_mod n 1) config.native_token_id amount
            recipient
          ∷ b.events;
    })

module _ {Bank : Type 0} (currency : Currency Bank) where
  open currency use {free_balance, existential_deposit}

  -- The destination, if any, has received the fee.
  abbrev pub Credited : ℕ → Option ℕ → Bank → Bank → Type 0
  Credited fee none b c = Unit
  Credited fee (some d) b c = free_balance c d ≡ free_balance b d + fee

  -- The fee has moved from the source to its destination, and nothing else has.
  pub record FeePaid (source fee : ℕ) (dest : Option ℕ) (b c : Bank) : Type 0 where
    pub covered : charge fee dest ≤ free_balance b source
    pub left :
        LeavesRest existential_deposit
          (free_balance b source - charge fee dest)
          (free_balance c source)
    pub credited : Credited fee dest b c
    pub others : (x : ℕ) → x ≢ source → OtherThan x dest → free_balance c x ≡ free_balance b x

  -- What a successful `transfer_native` has done: the amount has moved to the bridge's account
  -- and the fee to its destination, the source has paid both, no other account has changed, and
  -- the bridge has announced the amount under the next nonce of the destination chain.
  pub record Moved (config : Config) (source amount : ℕ) (recipient : List ℕ) (dest_id : ℕ)
      (s t : Swap Bank) : Type 0 where
    pub paid : charge s.swap_fee s.fee_destination + amount ≤ free_balance s.bank source
    pub left :
        LeavesRest existential_deposit
          (free_balance s.bank source - (charge s.swap_fee s.fee_destination + amount))
          (free_balance t.bank source)
    pub received :
        free_balance t.bank config.bridge.account_id
        ≡ free_balance s.bank config.bridge.account_id + amount
    pub credited : Credited s.swap_fee s.fee_destination s.bank t.bank
    pub others :
        (x : ℕ)
        → x ≢ source
        → x ≢ config.bridge.account_id
        → OtherThan x s.fee_destination
        → free_balance t.bank x ≡ free_balance s.bank x
    pub announced : Announces config recipient dest_id amount s.bridge t.bridge
