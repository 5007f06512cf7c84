-- ===== src/Fees.antt =====
-- DealWithFees of runtime/common/src/impls.rs: who gets the fees and the tips of a transaction. An
-- imbalance of the currency is its amount, and dropping one leaves all balances.
use xxchain.Common.{
  ℕ, ◌+◌, ◌-◌, ◌*◌, ◌/◌, ◌≤◌, ◌<◌, ◌≡◌, ◌≢◌, refl, sym, ap, ◌∙◌, Option, none, some, List, [], ◌∷◌,
  arith, u128_mod, inl, inr,
}
use xxchain.Frame.Currency.{Currency}
mod Examples

-- What the code calls of the imbalances, of the treasury and of the balances pallet.
pub record FeeHandlers (Bank : Type 0) : Type 0 where
  -- `Imbalance::ration(self, first, second)`
  pub ration : ℕ → ℕ → ℕ → ℕ × ℕ
  -- `tips.merge_into(other)`
  pub merge_into : ℕ → ℕ → ℕ
  -- `on_unbalanced` of the treasury
  pub treasury_on_unbalanced : ℕ → Bank → Bank
  -- `resolve_creating(who, imbalance)` of the balances pallet
  pub resolve_creating : ℕ → ℕ → Bank → Bank

module _ {Bank : Type 0} (handlers : FeeHandlers Bank) where
  -- `if let Some(tips) = fees_then_tips.next()`
  abbrev pub with_tips : ℕ → List ℕ → ℕ
  with_tips share [] = share
  with_tips share (tips ∷ _) = handlers.merge_into tips share

  -- `if let Some(author)`
  abbrev pub pay_author : Option ℕ → ℕ → Bank → Bank
  pay_author none share b = b
  pay_author (some who) share b = handlers.resolve_creating who share b

  -- The author of the block is what `pallet_authorship::author()` gives.
  unfoldable pub on_unbalanceds : Option ℕ → List ℕ → Bank → Bank
  on_unbalanceds author [] b = b
  on_unbalanceds author (fees ∷ rest) b =
      let split = handlers.ration fees 80 20 in
      pay_author author (with_tips split.1 rest) (handlers.treasury_on_unbalanced split.0 b)

-- A ration divides in proportion, down to whole units, and the second gets the rest; an imbalance that
-- leaves an account with the existential deposit or more credits it, and no other account.
pub record AreLawful {Bank : Type 0} (c : Currency Bank) (treasury : ℕ) (h : FeeHandlers Bank)
    : Type 0 where
  pub ration_parts :
      (amount first second : ℕ)
      → 0 < first + second
      → amount * first < u128_mod
      → let part = amount * first / (first + second) in
        h.ration amount first second ≡ (part, amount - part)
  pub merges : (a b : ℕ) → a + b < u128_mod → h.merge_into a b ≡ a + b
  pub treasury_credits :
      (amount : ℕ) (b : Bank)
      → c.existential_deposit ≤ c.free_balance b treasury + amount
      → c.free_balance (h.treasury_on_unbalanced amount b) treasury
        ≡ c.free_balance b treasury + amount
  pub treasury_others :
      (amount x : ℕ) (b : Bank)
      → x ≢ treasury
      → c.free_balance (h.treasury_on_unbalanced amount b) x ≡ c.free_balance b x
  pub resolve_credits :
      (who amount : ℕ) (b : Bank)
      → c.existential_deposit ≤ c.free_balance b who + amount
      → c.free_balance (h.resolve_creating who amount b) who ≡ c.free_balance b who + amount
  pub resolve_others :
      (who amount x : ℕ) (b : Bank)
      → x ≢ who
      → c.free_balance (h.resolve_creating who amount b) x ≡ c.free_balance b x

-- The tips come second, if there are any.
abbrev pub tips_of : List ℕ → ℕ
tips_of [] = 0
tips_of (tips ∷ _) = tips

abbrev pub IsNot : ℕ → Option ℕ → Type 0
IsNot x none = Unit
IsNot x (some who) = x ≢ who

module _ {Bank : Type 0} (currency : Currency Bank) (treasury : ℕ) where
  open currency use {free_balance, existential_deposit}

  -- The author, if there is one, has gained an amount.
  abbrev pub Gains : Option ℕ → ℕ → Bank → Bank → Type 0
  Gains none amount b c = Unit
  Gains (some who) amount b c = free_balance c who ≡ free_balance b who + amount

  -- The author, if there is one, would keep the existential deposit.
  abbrev pub Keeps : Option ℕ → Bank → Type 0
  Keeps none b = Unit
  Keeps (some who) b = existential_deposit ≤ free_balance b who

  -- Four fifths of the fees, down to whole units, are the treasury's, the rest and the tips are the
  -- author's, and nobody else has gained or lost.
  pub record Shared (author : Option ℕ) (fees tips : ℕ) (b c : Bank) : Type 0 where
    pub share : ℕ
    pub four_fifths : (5 * share ≤ 4 * fees) × (4 * fees < 5 * share + 5)
    pub to_treasury : free_balance c treasury ≡ free_balance b treasury + share
    pub to_author : Gains author (fees - share + tips) b c
    pub others : (x : ℕ) → x ≢ treasury → IsNot x author → free_balance c x ≡ free_balance b x

  module _ (handlers : FeeHandlers Bank) (lawful : AreLawful currency treasury handlers) where
    rationed :
        (fees : ℕ)
        → fees * 80 < u128_mod
        → let split = handlers.ration fees 80 20 in
          (split.0 ≡ fees * 80 / 100) × (split.1 ≡ fees - fees * 80 / 100)
    rationed fees small =
        let parts = lawful.ration_parts fees 80 20 (omega arith) small in
        (ap (λ (x : ℕ × ℕ). x.0) parts, ap (λ (x : ℕ × ℕ). x.1) parts)

    merged :
        (share : ℕ) (rest : List ℕ)
        → share + tips_of rest < u128_mod
        → with_tips handlers share rest ≡ share + tips_of rest
    merged share [] h = omega arith
    merged share (tips ∷ rest) h = omega (arith, lawful.merges tips share (omega (arith, h)))

    -- Fees are shared out as `Shared` says, with the author's part lost where a block has no author;
    -- as long as the treasury and the author are different accounts that hold the existential deposit
    -- and eighty times the fees, and the fees with the tips, are in range.
    pub on_unbalanceds-Shared :
        (author : Option ℕ) (fees : ℕ) (rest : List ℕ) (b : Bank)
        → IsNot treasury author
        → existential_deposit ≤ free_balance b treasury
        → Keeps author b
        → fees * 80 < u128_mod
        → fees + tips_of rest < u128_mod
        → Shared author fees (tips_of rest) b (on_unbalanceds handlers author (fees ∷ rest) b)
    unfolding on_unbalanceds
    on_unbalanceds-Shared none fees rest b apart rich keeps small fits =
        let share = (handlers.ration fees 80 20).0 in
        record {
          share = share;
          four_fifths = omega (arith, (rationed fees small).0);
          to_treasury = lawful.treasury_credits share b (omega (arith, rich));
          to_author = tt;
          others = λ x nt na. lawful.treasury_others share x b nt;
        }
    on_unbalanceds-Shared (some who) fees rest b apart rich keeps small fits =
        let split = handlers.ration fees 80 20 in
        let parts = rationed fees small in
        let after = handlers.treasury_on_unbalanced split.0 b in
        let gain = with_tips handlers split.1 rest in
        let gained = merged split.1 rest (omega (arith, parts.1, fits)) in
        let same = lawful.treasury_others split.0 who b (λ e. apart (sym e)) in
        let credited = lawful.resolve_credits who gain after (omega (arith, same, keeps)) in
        record {
          share = split.0;
          four_fifths = omega (arith, (rationed fees small).0);
          to_treasury =
              lawful.resolve_others who gain treasury after apart
              ∙ lawful.treasury_credits split.0 b (omega (arith, rich));
          to_author = omega (arith, credited, same, gained, parts.0, parts.1);
          others = λ x nt na.
              lawful.resolve_others who gain x after na ∙ lawful.treasury_others split.0 x b nt;
        }
