-- ===== src/Frame/StorageMap.antt =====
-- A storage map. The representation is private: clients have the laws below. Iteration order is
-- that of the entries, newest first.
pub mod Totals
pub mod Drain
use xxchain.Common.{
  ℕ, suc, ◌≡◌, refl, Bool, true, false, Option, none, some, List, [], ◌∷◌, arith, StorageKey, ◌==◌,
  if◌then◌else◌, length, ap,
}

pub record StorageMap {ℓ κ} (K : Type ℓ) (V : Type κ) : Type (ℓ ⊔ κ) where
  entries : List (K × V)

module _ {ℓ κ} {K : Type ℓ} {V : Type κ} ⦃e : StorageKey K⦄ where
  find : K → List (K × V) → Option V
  find k [] = none
  find k (entry ∷ rest) = if entry.0 == k then some entry.1 else find k rest

  drop_key : K → List (K × V) → List (K × V)
  drop_key k [] = []
  drop_key k (entry ∷ rest) =
      let kept = drop_key k rest in if entry.0 == k then kept else entry ∷ kept

  -- `get`
  unfoldable pub get : StorageMap K V → K → Option V
  unfolding find
  get m k = find k m.entries

  -- `contains_key`
  unfoldable pub contains_key : StorageMap K V → K → Bool
  unfolding get
  contains_key m k = elim (get m k) [ none ↦ false | some _ ↦ true ]

  -- `remove`
  unfoldable pub remove : StorageMap K V → K → StorageMap K V
  unfolding drop_key
  remove m k = record { entries = drop_key k m.entries }

  -- `insert`
  unfoldable pub insert : StorageMap K V → K → V → StorageMap K V
  unfolding drop_key
  insert m k v = record { entries = (k, v) ∷ drop_key k m.entries }

  find-drop_key :
      (k j : K) (l : List (K × V)) → find j (drop_key k l) ≡ (if k == j then none else find j l)
  unfolding find drop_key
  find-drop_key k j [] = ground arith
  find-drop_key k j ((i, v) ∷ l) =
      ground (arith, find-drop_key k j l, e.same_iff i k, e.same_iff i j, e.same_iff k j)

  pub get-remove :
      (m : StorageMap K V) (k j : K) → get (remove m k) j ≡ (if k == j then none else get m j)
  unfolding get remove
  get-remove m k j = find-drop_key k j m.entries

  pub get-insert :
      (m : StorageMap K V) (k j : K) (v : V)
      → get (insert m k v) j ≡ (if k == j then some v else get m j)
  unfolding get insert find
  get-insert m k j v = ground (arith, find-drop_key k j m.entries)

  pub get-insert_self : (m : StorageMap K V) (k : K) (v : V) → get (insert m k v) k ≡ some v
  get-insert_self m k v = rw get-insert (ground (arith, e.same_iff k k))

  -- The number of entries.
  pub size : StorageMap K V → ℕ
  size m = length m.entries

  -- No key is stored twice.
  HasDistinctKeys : List (K × V) → Type κ
  HasDistinctKeys [] = Unit
  HasDistinctKeys ((k, v) ∷ l) = (find k l ≡ none) × HasDistinctKeys l

  pub record IsProper (m : StorageMap K V) : Type κ where
    keys : HasDistinctKeys m.entries

  length-drop_key_absent :
      (k : K) (l : List (K × V)) → find k l ≡ none → length (drop_key k l) ≡ length l
  unfolding find drop_key
  length-drop_key_absent k [] h = refl
  length-drop_key_absent k ((j, v) ∷ l) h = ground (arith, length-drop_key_absent k l)

  length-drop_key_present :
      (k : K) (l : List (K × V)) (w : V)
      → HasDistinctKeys l
      → find k l ≡ some w
      → suc (length (drop_key k l)) ≡ length l
  unfolding find drop_key HasDistinctKeys
  length-drop_key_present k [] w d h = cc
  length-drop_key_present k ((j, v) ∷ l) w d h =
      ground (arith, e.same_iff j k, length-drop_key_absent k l, length-drop_key_present k l w d.1)

  drop_key-HasDistinctKeys :
      (k : K) (l : List (K × V)) → HasDistinctKeys l → HasDistinctKeys (drop_key k l)
  unfolding drop_key HasDistinctKeys
  drop_key-HasDistinctKeys k [] d = tt
  drop_key-HasDistinctKeys k ((j, v) ∷ l) d =
      ground (arith, find-drop_key k j l, drop_key-HasDistinctKeys k l d.1)

  pub size-insert :
      (m : StorageMap K V) (k : K) (v : V) → get m k ≡ none → size (insert m k v) ≡ suc (size m)
  unfolding size insert get
  size-insert m k v h = ap suc (length-drop_key_absent k m.entries h)

  pub size-remove :
      (m : StorageMap K V) (k : K) {v : V}
      → IsProper m
      → get m k ≡ some v
      → suc (size (remove m k)) ≡ size m
  unfolding size remove get
  size-remove m k {v} p h = length-drop_key_present k m.entries v p.keys h

  pub insert-IsProper : (m : StorageMap K V) (k : K) (v : V) → IsProper m → IsProper (insert m k v)
  unfolding insert HasDistinctKeys
  insert-IsProper m k v p = record {
    keys = (
      ground (arith, find-drop_key k k m.entries, e.same_iff k k),
      drop_key-HasDistinctKeys k m.entries p.keys,
    );
  }

  pub remove-IsProper : (m : StorageMap K V) (k : K) → IsProper m → IsProper (remove m k)
  unfolding remove
  remove-IsProper m k p = record { keys = drop_key-HasDistinctKeys k m.entries p.keys }

unfoldable pub empty {ℓ κ} : {K : Type ℓ} {V : Type κ} → StorageMap K V
empty = record { entries = [] }

module _ {ℓ κ} {K : Type ℓ} {V : Type κ} ⦃e : StorageKey K⦄ where
  pub get-empty : (k : K) → get (empty {K = K} {V = V}) k ≡ none
  unfolding get empty find
  get-empty k = refl

  pub empty-IsProper : IsProper (empty {K = K} {V = V})
  unfolding empty HasDistinctKeys
  empty-IsProper = record { keys = tt }

pub size-empty {ℓ κ} :
    (K : Type ℓ) (V : Type κ) ⦃e : StorageKey K⦄ → size (empty {K = K} {V = V}) ≡ 0
unfolding size empty
size-empty K V = refl

pub ruleset map_laws = (get-empty, get-insert, get-remove)
