-- ===== src/Frame/StorageMap/Totals.antt =====
-- Figures added up over the values of a storage map.
use xxchain.Common.{
  ℕ, ◌+◌, ◌≤◌, ◌≡◌, refl, sym, ap, ◌∙◌, true, none, some, List, [], ◌∷◌, arith, inl, inr,
  Bool-cases, Option-cases, StorageKey, ◌==◌,
}
use xxchain.Frame.StorageMap.{
  StorageMap, find, drop_key, get, insert, remove, HasDistinctKeys, IsProper, empty,
}

module _ {ℓ κ} {K : Type ℓ} {V : Type κ} ⦃e : StorageKey K⦄ where
  sum_entries : (V → ℕ) → List (K × V) → ℕ
  sum_entries f [] = 0
  sum_entries f ((k, v) ∷ l) = f v + sum_entries f l

  -- A figure added up over all stored values.
  unfoldable pub total : (V → ℕ) → StorageMap K V → ℕ
  unfolding sum_entries
  total f m = sum_entries f m.entries

  sum-absent :
      (f : V → ℕ) (k : K) (l : List (K × V))
      → find k l ≡ none
      → sum_entries f (drop_key k l) ≡ sum_entries f l
  unfolding find drop_key sum_entries
  sum-absent f k [] h = refl
  sum-absent f k ((j, v) ∷ l) h = ground (arith, sum-absent f k l)

  sum-present :
      (f : V → ℕ) (k : K) (l : List (K × V)) (w : V)
      → HasDistinctKeys l
      → find k l ≡ some w
      → f w + sum_entries f (drop_key k l) ≡ sum_entries f l
  unfolding find drop_key sum_entries HasDistinctKeys
  sum-present f k [] w d h = cc
  sum-present f k ((j, v) ∷ l) w d h = elim (Bool-cases (j == k)) [
    | inl hit ↦
        let j_eq : j ≡ k = (e.same_iff j k).0 hit in
        let v_eq : v ≡ w = cc (rw hit at h) in
        let gone : find k l ≡ none = rw (← j_eq) d.0 in
        rw hit (
          ap (λ (x : ℕ). x + sum_entries f (drop_key k l)) (ap f (sym v_eq))
          ∙ ap (λ (x : ℕ). f v + x) (sum-absent f k l gone))
    | inr miss ↦ let rest = sum-present f k l w d.1 (rw miss at h) in rw miss (omega (arith, rest))
  ]

  pub total-insert_new :
      (f : V → ℕ) (m : StorageMap K V) (k : K) (v : V)
      → get m k ≡ none
      → total f (insert m k v) ≡ f v + total f m
  unfolding total insert get sum_entries
  total-insert_new f m k v h = ap (λ (x : ℕ). f v + x) (sum-absent f k m.entries h)

  pub total-insert_over :
      (f : V → ℕ) (m : StorageMap K V) (k : K) (v : V) {w : V}
      → IsProper m
      → get m k ≡ some w
      → f w + total f (insert m k v) ≡ f v + total f m
  unfolding total insert get sum_entries
  total-insert_over f m k v {w} p h = omega (arith, sum-present f k m.entries w p.keys h)

  pub total-remove :
      (f : V → ℕ) (m : StorageMap K V) (k : K) {w : V}
      → IsProper m
      → get m k ≡ some w
      → f w + total f (remove m k) ≡ total f m
  unfolding total remove get
  total-remove f m k {w} p h = sum-present f k m.entries w p.keys h

  pub total-remove_absent :
      (f : V → ℕ) (m : StorageMap K V) (k : K) → get m k ≡ none → total f (remove m k) ≡ total f m
  unfolding total remove get
  total-remove_absent f m k h = sum-absent f k m.entries h

  pub total-insert_le :
      (f : V → ℕ) (m : StorageMap K V) (k : K) (v : V)
      → IsProper m
      → total f (insert m k v) ≤ f v + total f m
  total-insert_le f m k v p = elim (Option-cases (get m k)) [
    | inl new ↦ omega (arith, total-insert_new f m k v new)
    | inr (w, old) ↦ omega (arith, total-insert_over f m k v p old)
  ]

  -- What is found at a key is what is stored for it.
  sum_mono :
      (f g : V → ℕ) (l : List (K × V))
      → HasDistinctKeys l
      → ((k : K) (v : V) → find k l ≡ some v → f v ≤ g v)
      → sum_entries f l ≤ sum_entries g l
  unfolding sum_entries HasDistinctKeys find
  sum_mono f g [] d h = omega arith
  sum_mono f g ((j, v) ∷ l) d h =
      let self : (j == j) ≡ true = (e.same_iff j j).1 refl in
      let here : f v ≤ g v = h j v (rw self refl) in
      let rest = sum_mono f g l d.1 (λ k w stored. elim (Bool-cases (j == k)) [
        | inl hit ↦
            let j_eq : j ≡ k = (e.same_iff j k).0 hit in
            let both : none ≡ some w = sym d.0 ∙ rw j_eq stored in absurd (cc both)
        | inr miss ↦ h k w (rw miss stored)
      ]) in
      omega (arith, here, rest)

  pub total_mono :
      (f g : V → ℕ) (m : StorageMap K V)
      → IsProper m
      → ((k : K) (v : V) → get m k ≡ some v → f v ≤ g v)
      → total f m ≤ total g m
  unfolding total get
  total_mono f g m p h = sum_mono f g m.entries p.keys h

pub total-empty {ℓ κ} :
    (K : Type ℓ) (V : Type κ) ⦃e : StorageKey K⦄ (f : V → ℕ) → total f (empty {K = K} {V = V}) ≡ 0
unfolding total empty sum_entries
total-empty K V f = refl
