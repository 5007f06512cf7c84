-- ===== src/Claims/Books.antt =====
-- The books of claims/src/lib.rs over its calls: what is paid, what can be claimed, what is minted.
use xxchain.Common.{
  ℕ, ◌+◌, ◌≤◌, ◌<◌, ◌≡◌, Option, List, arith, list_eq, nat_eq, Option-cases, inl, inr, u128_mod,
}
use xxchain.Frame.{Origin, ok, DispatchResult}
use xxchain.Frame.StorageMap.{StorageMap, get, remove, IsProper, insert-IsProper, remove-IsProper}
use xxchain.Frame.StorageMap.Totals.{total, total-remove, total-remove_absent, total-insert_le}
use xxchain.Claims.Storage.{
  Config, Claims, EthereumAddress, Externals, RewardHandler, Schedule, StatementKind,
}
use xxchain.Claims.Calls.{move_entry}
use xxchain.Claims.Calls
use xxchain.Claims.Validity.{Call, mint_claim}
use xxchain.Claims.Outcome.{Outcome, Spent, paid}

-- What is stored for claims, added up.
unfoldable pub claimable : StorageMap EthereumAddress ℕ → ℕ
claimable m = total (λ (v : ℕ). v) m

pub record InOrder {W : Type 0} (s : Claims W) : Type 0 where
  pub proper : IsProper s.claims
  pub covered : claimable s.claims ≤ s.total

-- What a call adds to the total.
abbrev pub minted : Call → ℕ
minted (mint_claim who value vs statement) = value
minted _ = 0

-- From one state to another with an amount minted: nothing is paid that was not on the books.
pub record Balances {W : Type 0} (amount : ℕ) (s t : Claims W) : Type 0 where
  pub order : InOrder s → InOrder t
  pub conserved : paid t.events + t.total ≡ paid s.events + s.total + amount

move_entry-IsProper :
    (m : StorageMap EthereumAddress ℕ) (old new : EthereumAddress)
    → IsProper m
    → IsProper (move_entry m old new)
unfolding move_entry
move_entry-IsProper m old new p = elim (Option-cases (get m old)) [
  | inl missing ↦ rw missing (remove-IsProper m old p)
  | inr (c, stored) ↦ rw stored (insert-IsProper (remove m old) new c (remove-IsProper m old p))
]

-- A claim that is moved on another one replaces it.
claimable-move_entry :
    (m : StorageMap EthereumAddress ℕ) (old new : EthereumAddress)
    → IsProper m
    → claimable (move_entry m old new) ≤ claimable m
unfolding move_entry claimable
claimable-move_entry m old new p = elim (Option-cases (get m old)) [
  | inl missing ↦ rw missing (omega (arith, total-remove_absent (λ (v : ℕ). v) m old missing))
  | inr (c, stored) ↦ rw stored (
      omega (
        arith,
        total-insert_le (λ (v : ℕ). v) (remove m old) new c (remove-IsProper m old p),
        total-remove (λ (v : ℕ). v) m old p stored,
      ))
]

module _ {W : Type 0} (externals : Externals W) (handler : RewardHandler W) where
  Spent-Balances :
      (s t : Claims W) (signer : EthereumAddress) (dest due : ℕ)
      → Spent externals handler s t signer dest due
      → Balances 0 s t
  unfolding claimable paid
  Spent-Balances s t signer dest due spent = record {
    order = λ o. record {
      proper = rw spent.claims (remove-IsProper s.claims signer o.proper);
      covered = rw spent.claims (
          omega (
            arith,
            total-remove (λ (v : ℕ). v) s.claims signer o.proper spent.stored,
            spent.total,
            o.covered,
          ));
    };
    conserved = rw spent.events (omega (arith, spent.total));
  }

  pub Outcome-Balances :
      (m : DispatchResult (Claims W)) (s : Claims W) (found : Option EthereumAddress) (dest : ℕ)
      → (m s).0 ≡ ok tt
      → Outcome externals handler m s found dest
      → Balances 0 s (m s).1
  Outcome-Balances m s found dest h (inl (e, refused)) = absurd (cc (refused, h))
  Outcome-Balances m s found dest h (inr (done, signer, it, due, spent)) =
      Spent-Balances s (m s).1 signer dest due spent

module _ (config : Config) {W : Type 0} (externals : Externals W) (handler : RewardHandler W) where
  pub mint_claim-Balances :
      (s : Claims W) (o : Origin) (who : EthereumAddress) (value : ℕ) (vs : Option (List Schedule))
      (statement : Option StatementKind)
      → s.total + value < u128_mod
      → (Calls.mint_claim config externals handler o who value vs statement s).0 ≡ ok tt
      → Balances value s (Calls.mint_claim config externals handler o who value vs statement s).1
  unfolding Calls.mint_claim claimable
  mint_claim-Balances s Origin.root who value vs statement fits h = record {
    order = λ o. record {
      proper = insert-IsProper s.claims who value o.proper;
      covered =
          omega
            (arith, total-insert_le (λ (v : ℕ). v) s.claims who value o.proper, o.covered, fits);
    };
    conserved = omega (arith, fits);
  }
  mint_claim-Balances s o who value vs statement fits h = absurd (cc h)

  pub moved-Balances :
      (s : Claims W) (old new : EthereumAddress) (t : Claims W)
      → t.claims ≡ move_entry s.claims old new
      → t.total ≡ s.total
      → t.events ≡ s.events
      → Balances 0 s t
  moved-Balances s old new t claims total events = record {
    order = λ o. record {
      proper = rw claims (move_entry-IsProper s.claims old new o.proper);
      covered =
          rw (claims, total)
            (omega (arith, claimable-move_entry s.claims old new o.proper, o.covered));
    };
    conserved = rw (total, events) (omega arith);
  }
