-- ===== src/Economics/Rewards.antt =====
-- xx-economics/src/rewards.rs: rewards are taken from the pool as far as it goes, and minted beyond.
-- The imbalances of the currency are amounts; what the currency does with them is a parameter.
use xxchain.Common.{
  ℕ, ◌+◌, ◌-◌, ◌≤◌, ◌≡◌, ap, ◌∙◌, List, [], ◌∷◌, arith, min, ◌==◌, nat_eq, if◌then◌else◌,
}
use xxchain.Frame.Currency.{Currency, LeavesRest}
use xxchain.Economics.Pallet.{Config, Economics, Event, reward_from_pool, reward_minted}

pub record Imbalances (Bank : Type 0) : Type 0 where
  -- `Currency::settle(account, imbalance, TRANSFER, AllowDeath)`, whose result is ignored
  pub settle : ℕ → ℕ → Bank → Bank
  -- `Currency::burn`, which gives an imbalance of the same amount
  pub burn : ℕ → Bank → Bank
  -- what dropping a positive imbalance does
  pub drop_positive : ℕ → Bank → Bank
  -- `Imbalance::split(self, amount)`
  pub split : ℕ → ℕ → ℕ × ℕ
  -- `RewardRemainder::on_unbalanced`
  pub reward_remainder : ℕ → Bank → Bank

-- A split takes as much as there is; a settlement that the account can pay debits it; an issuance
-- that is squared up changes no balance.
pub record AreLawful {Bank : Type 0} (c : Currency Bank) (i : Imbalances Bank) : Type 0 where
  pub split_parts :
      (amount at_most : ℕ) → i.split amount at_most ≡ (min amount at_most, amount - at_most)
  pub settle_debits :
      (account amount : ℕ) (b : Bank)
      → amount ≤ c.free_balance b account
      → LeavesRest c.existential_deposit
          (c.free_balance b account - amount)
          (c.free_balance (i.settle account amount b) account)
  pub drop_keeps :
      (amount x : ℕ) (b : Bank) → c.free_balance (i.drop_positive amount b) x ≡ c.free_balance b x

module _ (config : Config) {Bank : Type 0} (currency : Currency Bank)
    (imbalances : Imbalances Bank) where
  abbrev pub pool_balance : Bank → ℕ
  pool_balance b = currency.free_balance b config.rewards_account_id

  -- An imbalance of zero is dropped by the early return, which does nothing.
  unfoldable pub withdraw : ℕ → Economics Bank → Economics Bank
  withdraw amount s = if amount == 0 then s else record s {
    bank = imbalances.settle config.rewards_account_id amount s.bank;
    events = reward_from_pool amount ∷ s.events;
  }

  unfoldable pub mint_event : ℕ → Economics Bank → Economics Bank
  mint_event amount s =
      if amount == 0 then s else record s { events = reward_minted amount ∷ s.events }

  -- `OnUnbalanced<PositiveImbalance>`: validator rewards.
  unfoldable pub on_nonzero_unbalanced : ℕ → Economics Bank → Economics Bank
  on_nonzero_unbalanced amount s =
      let (withdrawn, mint) = imbalances.split amount (pool_balance s.bank) in
      let s' = mint_event mint (withdraw withdrawn s) in
      record s' { bank = imbalances.drop_positive mint s'.bank }

  -- `RewardRemainderAdapter`.
  unfoldable pub on_remainder : ℕ → Economics Bank → Economics Bank
  on_remainder numeric_amount s =
      let withdrawn = min numeric_amount (pool_balance s.bank) in
      let mint = numeric_amount - withdrawn in
      let burnt = record s { bank = imbalances.burn withdrawn s.bank } in
      let s' = mint_event mint (withdraw withdrawn burnt) in
      record s' { bank = imbalances.reward_remainder numeric_amount s'.bank }

-- What the events report as taken from the pool, and as minted.
pub from_pool : List Event → ℕ
from_pool [] = 0
from_pool (reward_from_pool n ∷ es) = n + from_pool es
from_pool (_ ∷ es) = from_pool es

pub minted : List Event → ℕ
minted [] = 0
minted (reward_minted n ∷ es) = n + minted es
minted (_ ∷ es) = minted es

module _ (config : Config) {Bank : Type 0} (currency : Currency Bank)
    (imbalances : Imbalances Bank) where
  -- The events of a reward report its amount, from the pool as far as the pool's balance goes.
  abbrev pub Reports : ℕ → ℕ → List Event → List Event → Type 0
  Reports amount balance before after =
      (from_pool after ≡ from_pool before + min amount balance)
      × (minted after ≡ minted before + (amount - balance))

  reported :
      (w m : ℕ) (s : Economics Bank)
      → let after =
          (mint_event config currency imbalances m
            (withdraw config currency imbalances w s)).events in
        (from_pool after ≡ from_pool s.events + w) × (minted after ≡ minted s.events + m)
  unfolding mint_event withdraw from_pool minted
  reported w m s = ground arith

  -- A reward is reported whole: the part that the pool's balance covers as taken from the pool, and
  -- what is beyond it as minted, for validator rewards as for the remainder.
  pub rewards-Reports :
      (amount : ℕ) (s : Economics Bank)
      → AreLawful currency imbalances
      → let balance = currency.free_balance s.bank config.rewards_account_id in
        Reports amount balance s.events
          (on_nonzero_unbalanced config currency imbalances amount s).events
        × Reports amount balance s.events (on_remainder config currency imbalances amount s).events
  unfolding on_nonzero_unbalanced on_remainder
  rewards-Reports amount s lawful =
      let balance = currency.free_balance s.bank config.rewards_account_id in
      let parts = lawful.split_parts amount balance in
      let (w, m) = imbalances.split amount balance in
      let some_of : w ≡ min amount balance = ap (λ (x : ℕ × ℕ). x.0) parts in
      let rest_of : m ≡ amount - balance = ap (λ (x : ℕ × ℕ). x.1) parts in
      let first = reported w m s in
      let taken = min amount balance in
      let second =
        reported taken (amount - taken) (record s { bank = imbalances.burn taken s.bank }) in
      (
        (omega (arith, first.0, some_of), omega (arith, first.1, rest_of)),
        (second.0, omega (arith, second.1)),
      )

  withdraw-LeavesRest :
      (w : ℕ) (s : Economics Bank)
      → AreLawful currency imbalances
      → let balance = currency.free_balance s.bank config.rewards_account_id in
        w ≤ balance
        → LeavesRest currency.existential_deposit (balance - w) (
            currency.free_balance
              (withdraw config currency imbalances w s).bank
              config.rewards_account_id)
  unfolding withdraw
  withdraw-LeavesRest w s lawful le =
      ground (arith, lawful.settle_debits config.rewards_account_id w s.bank le)

  mint_event-bank :
      (m : ℕ) (s : Economics Bank) → (mint_event config currency imbalances m s).bank ≡ s.bank
  unfolding mint_event
  mint_event-bank m s = ground arith

  -- A validator reward leaves the pool what it does not take, less than the existential deposit
  -- being reaped: nothing, where the reward is at least the balance.
  pub on_nonzero_unbalanced-LeavesRest :
      (amount : ℕ) (s : Economics Bank)
      → AreLawful currency imbalances
      → let balance = currency.free_balance s.bank config.rewards_account_id in
        LeavesRest currency.existential_deposit (balance - amount) (
          currency.free_balance
            (on_nonzero_unbalanced config currency imbalances amount s).bank
            config.rewards_account_id)
  unfolding on_nonzero_unbalanced
  on_nonzero_unbalanced-LeavesRest amount s lawful =
      let balance = currency.free_balance s.bank config.rewards_account_id in
      let parts = lawful.split_parts amount balance in
      let (w, m) = imbalances.split amount balance in
      let some_of : w ≡ min amount balance = ap (λ (x : ℕ × ℕ). x.0) parts in
      let s1 = withdraw config currency imbalances w s in
      let left = withdraw-LeavesRest w s lawful (omega (arith, some_of)) in
      let kept =
        lawful.drop_keeps m config.rewards_account_id
          (mint_event config currency imbalances m s1).bank
        ∙ ap (λ (b : Bank). currency.free_balance b config.rewards_account_id)
            (mint_event-bank m s1) in
      ground arith
