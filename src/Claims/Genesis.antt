-- ===== src/Claims/Genesis.antt =====
-- The books of claims/src/lib.rs after the genesis build.
use xxchain.Common.{
  ℕ, ◌+◌, ◌<◌, ◌≡◌, refl, ap, ◌∙◌, Bool, true, false, ◌||◌, Option, none, some, List, [], ◌∷◌,
  arith, list_eq, list_beq_iff, nat_eq, Bool-cases, inl, inr, ◌==◌, if◌then◌else◌, u128_mod,
}
use xxchain.Frame.StorageMap.{
  get, insert, IsProper, empty-IsProper, insert-IsProper, get-insert, get-empty,
}
use xxchain.Frame.StorageMap.Totals.{total-insert_new, total-empty}
use xxchain.Claims.Storage.{Claims, EthereumAddress}
use xxchain.Claims.Calls.{ClaimEntry, GenesisConfig, add_entry, add_entries, blank, genesis_build}
use xxchain.Claims.Books.{InOrder, claimable}

abbrev pub sum_values : List ClaimEntry → ℕ
sum_values [] = 0
sum_values (e ∷ es) = e.value + sum_values es

abbrev pub is_listed : EthereumAddress → List ClaimEntry → Bool
is_listed a [] = false
is_listed a (e ∷ es) = e.address == a || is_listed a es

-- No address has two claims.
abbrev pub HasDistinctAddresses : List ClaimEntry → Type 0
HasDistinctAddresses [] = Unit
HasDistinctAddresses (e ∷ es) = (is_listed e.address es ≡ false) × HasDistinctAddresses es

-- The configured claim of an address.
abbrev pub claim_of : List ClaimEntry → EthereumAddress → Option ℕ
claim_of [] a = none
claim_of (e ∷ es) a = if e.address == a then some e.value else claim_of es a

claim_of-unlisted :
    (es : List ClaimEntry) (a : EthereumAddress)
    → (if is_listed a es then claim_of es a else none) ≡ claim_of es a
claim_of-unlisted [] a = refl
claim_of-unlisted (e ∷ es) a = elim (Bool-cases (e.address == a)) [
  | inl hit ↦ rw hit refl
  | inr miss ↦ rw miss (claim_of-unlisted es a)
]

-- Nothing but the configured claims is on the books, and they are all there.
pub record Opens {W : Type 0} (es : List ClaimEntry) (s t : Claims W) : Type 0 where
  pub proper : IsProper t.claims
  pub total : t.total ≡ s.total + sum_values es
  pub sum : claimable t.claims ≡ claimable s.claims + sum_values es
  pub stored :
      (a : EthereumAddress)
      → get t.claims a ≡ (if is_listed a es then claim_of es a else get s.claims a)

module _ {W : Type 0} where
  add_entry-claims :
      (e : ClaimEntry) (s : Claims W) → (add_entry e s).claims ≡ insert s.claims e.address e.value
  unfolding add_entry
  add_entry-claims e s = refl

  add_entry-total :
      (e : ClaimEntry) (s : Claims W)
      → s.total + e.value < u128_mod
      → (add_entry e s).total ≡ s.total + e.value
  unfolding add_entry
  add_entry-total e s fits = omega (arith, fits)

  module _ (e : ClaimEntry) (es : List ClaimEntry) (s : Claims W)
      (once : is_listed e.address es ≡ false) (a : EthereumAddress) where
    once_here : (e.address == a) ≡ true → is_listed a es ≡ false
    once_here hit = rw (← (list_beq_iff e.address a).0 hit) once

    get-add_entry :
        get (add_entry e s).claims a ≡ (if e.address == a then some e.value else get s.claims a)
    get-add_entry =
        ap (λ m. get m a) (add_entry-claims e s) ∙ get-insert s.claims e.address a e.value

    still_new :
        (is_listed a (e ∷ es) ≡ true → get s.claims a ≡ none)
        → is_listed a es ≡ true
        → get (add_entry e s).claims a ≡ none
    still_new new listed = elim (Bool-cases (e.address == a)) [
      | inl hit ↦ absurd (cc (once_here hit, listed))
      | inr miss ↦ get-add_entry ∙ rw miss (new (rw miss listed))
    ]

    stored_once :
        (if is_listed a es then claim_of es a else get (add_entry e s).claims a)
        ≡ (if is_listed a (e ∷ es) then claim_of (e ∷ es) a else get s.claims a)
    stored_once = elim (Bool-cases (e.address == a)) [
      | inl hit ↦ rw (once_here hit, get-add_entry, hit) refl
      | inr miss ↦ rw (get-add_entry, miss) refl
    ]

  add_entries-Opens :
      (es : List ClaimEntry) (s : Claims W)
      → HasDistinctAddresses es
      → ((a : EthereumAddress) → is_listed a es ≡ true → get s.claims a ≡ none)
      → s.total + sum_values es < u128_mod
      → IsProper s.claims
      → Opens es s (add_entries es s)
  unfolding add_entries claimable
  add_entries-Opens [] s distinct new fits proper = record {
    proper = proper;
    total = omega arith;
    sum = omega arith;
    stored = λ a. refl;
  }
  add_entries-Opens (e ∷ es) s distinct new fits proper =
      let claims = add_entry-claims e s in
      let sums = add_entry-total e s (omega (arith, fits)) in
      let self : (e.address == e.address) ≡ true = (list_beq_iff e.address e.address).1 refl in
      let gone : get s.claims e.address ≡ none = new e.address (rw self refl) in
      let kept : IsProper (add_entry e s).claims =
        rw claims (insert-IsProper s.claims e.address e.value proper) in
      let added : claimable (add_entry e s).claims ≡ e.value + claimable s.claims =
        rw claims (total-insert_new (λ (v : ℕ). v) s.claims e.address e.value gone) in
      let rest =
        add_entries-Opens es (add_entry e s) distinct.1 (λ a. still_new e es s distinct.0 a (new a))
          (omega (arith, sums, fits)) kept in
      record {
        proper = rest.proper;
        total = omega (arith, rest.total, sums);
        sum = omega (arith, rest.sum, added);
        stored = λ a. rest.stored a ∙ stored_once e es s distinct.0 a;
      }

  -- The genesis build of claims for different addresses that add up to less than the bound of the
  -- balance type leaves the books square: the total is the sum of the configured claims and of the
  -- stored ones, each address has its configured claim and no other address has one.
  pub genesis_build-Opens :
      (g : GenesisConfig) (w : W)
      → HasDistinctAddresses g.claims
      → sum_values g.claims < u128_mod
      → InOrder (genesis_build g w)
        × ((genesis_build g w).total ≡ sum_values g.claims)
        × (claimable (genesis_build g w).claims ≡ sum_values g.claims)
        × ((a : EthereumAddress) → get (genesis_build g w).claims a ≡ claim_of g.claims a)
  unfolding genesis_build claimable
  genesis_build-Opens g w distinct fits =
      let sum0 : claimable (blank g w).claims ≡ 0 = total-empty EthereumAddress ℕ (λ (v : ℕ). v) in
      let opens =
        add_entries-Opens g.claims (blank g w) distinct (λ a _. get-empty a) (omega (arith, fits))
          empty-IsProper in
      (
        record { proper = opens.proper; covered = omega (arith, opens.total, opens.sum, sum0) },
        omega (arith, opens.total),
        omega (arith, opens.sum, sum0),
        λ a.
            opens.stored a
            ∙ ap (λ o. if is_listed a g.claims then claim_of g.claims a else o) (get-empty a)
            ∙ claim_of-unlisted g.claims a,
      )
