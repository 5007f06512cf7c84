-- ===== src/Swap/Vault.antt =====
-- What the bridge's account is in swap/src/lib.rs: a vault that coins are locked in and released from.
use xxchain.Common.{
  ℕ, ◌+◌, ◌-◌, ◌≤◌, ◌<◌, ◌≡◌, ◌≢◌, List, [], ◌∷◌, ◌++◌, u128_mod, if◌then◌else◌, ◌==◌, nat_eq,
}
use xxchain.Frame.{Origin, Result, ok}
use xxchain.Frame.Currency.{Currency, LeavesRest}
use xxchain.Chainbridge.Storage as Bridge
use xxchain.Swap.Pallet.{Config, Swap}
use xxchain.Swap.Moved.{OtherThan}
use xxchain.Swap.Authority.{Call, transfer_native, transfer, set_fee_destination, run}

-- What the vault holds, and what has been announced of it to other chains.
pub record Vault : Type 0 where
  pub held : ℕ
  pub sent : ℕ

-- What can happen to a vault.
pub data Action : Type 0 where
  idle : Action
  lock release : ℕ → Action

-- What an action does: nothing, or an amount is locked and announced, or an amount that the vault holds is
-- released; what is left below the deposit may then be lost.
abbrev pub Step : ℕ → Vault → Action → Vault → Type 0
Step deposit v idle w = (w.held ≡ v.held) × (w.sent ≡ v.sent)
Step deposit v (lock amount) w = (w.held ≡ v.held + amount) × (w.sent ≡ v.sent + amount)
Step deposit v (release amount) w =
    (amount ≤ v.held) × LeavesRest deposit (v.held - amount) w.held × (w.sent ≡ v.sent)

abbrev pub amounts_of : Action → List ℕ
amounts_of (release amount) = amount ∷ []
amounts_of _ = []

-- The amounts of the outgoing transfers.
abbrev pub sent_amount : Bridge.Event → ℕ
sent_amount (Bridge.fungible_transfer chain nonce resource_id amount to) = amount
sent_amount _ = 0

abbrev pub all_sent : List Bridge.Event → ℕ
all_sent [] = 0
all_sent (e ∷ es) = sent_amount e + all_sent es

abbrev pub sum : List ℕ → ℕ
sum [] = 0
sum (x ∷ xs) = x + sum xs

module _ (config : Config) {Bank : Type 0} (currency : Currency Bank) where
  abbrev pub vault : Swap Bank → Vault
  vault s = record {
    held = currency.free_balance s.bank config.bridge.account_id;
    sent = all_sent s.bridge.events;
  }

  -- What a call does to the vault that the bridge's account is, by its result: a transfer of native tokens
  -- that succeeds locks its amount, and a payment that succeeds releases its amount, unless it is to the
  -- account itself. All other calls, and all that fail, do nothing to it.
  abbrev pub action : Call → Result (Unit {0}) → Action
  action (transfer_native amount recipient dest_id) (ok _) = lock amount
  action (transfer to amount) (ok _) =
      if to == config.bridge.account_id then idle else release amount
  action c r = idle

  -- What a call releases.
  abbrev pub released : Origin → Call → Swap Bank → List ℕ
  released o c s = amounts_of (action c (run config currency o c s).0)

  -- Nobody signs for the bridge's account, amounts are of 128 bits, and the fee does not go to the bridge.
  abbrev pub Fair : Origin → Call → Type 0
  Fair o (transfer_native amount recipient dest_id) =
      (o ≢ Origin.signed config.bridge.account_id) × (amount < u128_mod)
  Fair o (set_fee_destination dest) = dest ≢ config.bridge.account_id
  Fair o c = Unit

  -- The fee does not go to the bridge's account.
  abbrev pub IsApart : Swap Bank → Type 0
  IsApart s = OtherThan config.bridge.account_id s.fee_destination

  -- A change from outside of the pallet that touches neither the vault nor the destination of the fee.
  pub record Undisturbed (s t : Swap Bank) : Type 0 where
    pub same_held : (vault t).held ≡ (vault s).held
    pub same_sent : (vault t).sent ≡ (vault s).sent
    pub same_destination : t.fee_destination ≡ s.fee_destination

  -- Calls, by whatever origins and whether they succeed or fail, with such changes between them, and the
  -- amounts that they have released, newest first.
  pub data History (start : Swap Bank) : List ℕ → Swap Bank → Type 0 where
    begin : History start [] start
    called :
        {s : Swap Bank} {amounts : List ℕ} (o : Origin) (c : Call)
        → Fair o c
        → History start amounts s
        → History start (released o c s ++ amounts) (run config currency o c s).1
    elsewhere :
        {s : Swap Bank} {amounts : List ℕ} (t : Swap Bank)
        → Undisturbed s t
        → History start amounts s
        → History start amounts t
