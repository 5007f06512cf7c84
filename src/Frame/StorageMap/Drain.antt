-- ===== src/Frame/StorageMap/Drain.antt =====
-- `drain().for_each(...)` on a storage map: a fold over the entries, which are all removed.
use xxchain.Common.{
  ◌≡◌, refl, ap, none, some, List, [], ◌∷◌, inl, inr, Bool-cases, StorageKey, ◌==◌,
}
use xxchain.Frame.StorageMap.{
  StorageMap, find, drop_key, get, HasDistinctKeys, IsProper, insert, empty,
}

module _ {ℓ κ μ} {K : Type ℓ} {V : Type κ} {S : Type μ} where
  fold_entries : (K → V → S → S) → List (K × V) → S → S
  fold_entries f [] s = s
  fold_entries f ((k, v) ∷ l) s = fold_entries f l (f k v s)

  -- What the body does to the entries, one after the other.
  unfoldable pub for_each : (K → V → S → S) → StorageMap K V → S → S
  unfolding fold_entries
  for_each f m s = fold_entries f m.entries s

module _ {ℓ κ} {K : Type ℓ} {V : Type κ} {S : Type 0} where
  fold_keeps :
      (P : S → Type 0) (f : K → V → S → S)
      → ((k : K) (v : V) (s : S) → P s → P (f k v s))
      → (l : List (K × V)) (s : S) → P s
      → P (fold_entries f l s)
  unfolding fold_entries
  fold_keeps P f keep [] s h = h
  fold_keeps P f keep ((k, v) ∷ l) s h = fold_keeps P f keep l (f k v s) (keep k v s h)

  -- What every round keeps.
  pub for_each_keeps :
      (P : S → Type 0) (f : K → V → S → S)
      → ((k : K) (v : V) (s : S) → P s → P (f k v s))
      → (m : StorageMap K V) (s : S) → P s
      → P (for_each f m s)
  unfolding for_each
  for_each_keeps P f keep m s h = fold_keeps P f keep m.entries s h

module _ {ℓ κ} {K : Type ℓ} {V : Type κ} ⦃e : StorageKey K⦄ where
  drop_key-absent : (k : K) (l : List (K × V)) → find k l ≡ none → drop_key k l ≡ l
  unfolding find drop_key
  drop_key-absent k [] h = refl
  drop_key-absent k ((j, v) ∷ l) h = elim (Bool-cases (j == k)) [
    | inl hit ↦ let e : some v ≡ none = rw hit at h in absurd (cc e)
    | inr miss ↦
        let rest : find k l ≡ none = rw miss at h in
        rw miss (ap (λ (r : List (K × V)). (j, v) ∷ r) (drop_key-absent k l rest))
  ]

module _ {ℓ κ} {K : Type ℓ} {V : Type κ} {S : Type 0} ⦃e : StorageKey K⦄ where
  for_each_entries :
      (P : List (K × V) → S → Type 0) (f : K → V → S → S)
      → ((k : K) (v : V) (l : List (K × V)) (s : S)
          → find k l ≡ none
          → HasDistinctKeys l
          → P ((k, v) ∷ l) s
          → P l (f k v s))
      → (l : List (K × V)) (s : S) → HasDistinctKeys l
      → P l s
      → P [] (fold_entries f l s)
  unfolding fold_entries HasDistinctKeys
  for_each_entries P f step [] s d h = h
  for_each_entries P f step ((k, v) ∷ l) s d h =
      for_each_entries P f step l (f k v s) d.1 (step k v l s d.0 d.1 h)

  -- An invariant of the entries that are left and of what is done so far.
  pub for_each_inv :
      (P : StorageMap K V → S → Type 0) (f : K → V → S → S)
      → ((k : K) (v : V) (m : StorageMap K V) (s : S)
          → IsProper m
          → get m k ≡ none
          → P (insert m k v) s
          → P m (f k v s))
      → (m : StorageMap K V) (s : S) → IsProper m
      → P m s
      → P empty (for_each f m s)
  unfolding for_each get insert empty
  for_each_inv P f step m s p h =
      for_each_entries (λ l s. P (record { entries = l }) s) f
        (λ k v l s new distinct held.
          let same : drop_key k l ≡ l = drop_key-absent k l new in
          step k v (record { entries = l }) s (record { keys = distinct }) new (rw same held))
        m.entries s p.keys h
