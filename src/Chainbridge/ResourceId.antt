-- ===== src/Chainbridge/ResourceId.antt =====
-- `derive_resource_id` of chainbridge/src/lib.rs: the loop over the 32-byte array, and its value.
use xxchain.Common.{
  ℕ, zero, suc, ◌+◌, ◌-◌, ◌≤◌, ◌≡◌, refl, ap, List, [], ◌∷◌, ◌++◌, arith, ltb, if◌then◌else◌,
  length, get_or, set, take, replicate,
}

-- `for i in 0..range { r_id[30 - i] = id[range - 1 - i]; }`, with the rounds that are left.
unfoldable pub fill : ℕ → ℕ → ℕ → List ℕ → List ℕ → List ℕ
fill zero i range id r_id = r_id
fill (suc rounds) i range id r_id =
    fill rounds (i + 1) range id (set r_id (30 - i) (get_or id (range - 1 - i) 0))

abbrev pub used_bytes : List ℕ → ℕ
used_bytes id = if ltb 31 (length id) then 31 else length id

unfoldable pub derive_resource_id : ℕ → List ℕ → List ℕ
unfolding fill
derive_resource_id chain id =
    let r_id = set (replicate 32 0) 31 chain in
    let range = used_bytes id in fill range 0 range id r_id

set-replicate :
    (n x : ℕ) (rest : List ℕ) → set (replicate (suc n) 0 ++ rest) n x ≡ replicate n 0 ++ (x ∷ rest)
set-replicate zero x rest = refl
set-replicate (suc n) x rest = ap (λ (l : List ℕ). 0 ∷ l) (set-replicate n x rest)

take-suc :
    (k : ℕ) (id rest : List ℕ)
    → suc k ≤ length id
    → take (suc k) id ++ rest ≡ take k id ++ (get_or id k 0 ∷ rest)
take-suc k [] rest h = absurd (omega arith)
take-suc zero (x ∷ id) rest h = refl
take-suc (suc k) (x ∷ id) rest h = ap (λ (l : List ℕ). x ∷ l) (take-suc k id rest (omega arith))

fill_lem :
    (k i range : ℕ) (id rest : List ℕ)
    → i + k ≡ range
    → range ≤ 31
    → range ≤ length id
    → fill k i range id (replicate (31 - i) 0 ++ rest)
      ≡ replicate (31 - range) 0 ++ (take k id ++ rest)
unfolding fill
fill_lem zero i range id rest e small long =
    ap (λ (n : ℕ). replicate (31 - n) 0 ++ rest) (omega arith)
fill_lem (suc k) i range id rest e small long =
    let left : 31 - i ≡ suc (31 - (i + 1)) = omega arith in
    let at : 30 - i ≡ 31 - (i + 1) = omega arith in
    let byte : range - 1 - i ≡ k = omega arith in
    rw
      (
        left,
        at,
        byte,
        set-replicate (31 - (i + 1)) (get_or id k 0) rest,
        take-suc k id rest (omega arith),
      )
      (fill_lem k (i + 1) range id (get_or id k 0 ∷ rest) (omega arith) small long)

-- For every identifier, of any length, the array that the loop fills is the first 31 bytes of the
-- identifier in order, padded with zeros on the left to 31 bytes, and then the chain.
pub derive_resource_id_lem :
    (chain : ℕ) (id : List ℕ)
    → derive_resource_id chain id
      ≡ replicate (31 - used_bytes id) 0 ++ (take (used_bytes id) id ++ (chain ∷ []))
unfolding derive_resource_id
derive_resource_id_lem chain id =
    fill_lem (used_bytes id) 0 (used_bytes id) id (chain ∷ []) (omega arith) (ground arith)
      (ground arith)
