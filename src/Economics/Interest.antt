-- ===== src/Economics/Interest.antt =====
-- Bounds on the ideal interest of xx-economics/src/inflation.rs, and what it depends on.
use xxchain.Common.{
  ℕ, ◌+◌, ◌≤◌, ◌<◌, ◌≡◌, refl, Option, some, List, [], ◌∷◌, arith, get_elem?, suc, zero, u32_mod,
  wrapping_sub, nat_eq, inl, inr, Option-cases,
}
use xxchain.Frame.Perbill.{Perbill, IsPerbill, billion}
use xxchain.Economics.Pallet.{Config, IdealInterestPoint}
use xxchain.Economics.Inflation.{
  position, last, interest_of, calc_block, compute_ideal_interest, get_ideal_interest,
}

-- All points have an interest between two bounds.
abbrev pub AllWithin : ℕ → ℕ → List IdealInterestPoint → Type 0
AllWithin lo hi [] = Unit
AllWithin lo hi (p ∷ ps) = ((lo ≤ p.interest) × (p.interest ≤ hi)) × AllWithin lo hi ps

-- There is an interest, and it is between the bounds.
abbrev pub IsWithin : ℕ → ℕ → Option ℕ → Type 0
IsWithin lo hi o = (r : ℕ) × (o ≡ some r) × (lo ≤ r) × (r ≤ hi)

module _ (config : Config) (perbill : Perbill) (laws : IsPerbill perbill) where
  open perbill use {from_rational, times_ratio, saturating_add, saturating_sub}

  -- The part of a difference that a ratio takes away or adds.
  part_bound : (ratio diff : ℕ) → ratio ≤ billion → times_ratio ratio diff ≤ diff
  part_bound ratio diff h = laws.times_ratio_bound ratio diff h

  compute-IsWithin :
      (block lo hi : ℕ) (start end : IdealInterestPoint)
      → lo ≤ start.interest
      → start.interest ≤ hi
      → lo ≤ end.interest
      → end.interest ≤ hi
      → hi ≤ billion
      → (lo ≤ compute_ideal_interest config perbill block start end)
        × (compute_ideal_interest config perbill block start end ≤ hi)
  unfolding compute_ideal_interest
  compute-IsWithin block lo hi start end ls sh le eh small =
      let ratio =
        from_rational (calc_block config perbill block)
          (wrapping_sub u32_mod end.block start.block) in
      let bound =
        laws.from_rational_bound (calc_block config perbill block)
          (wrapping_sub u32_mod end.block start.block) in
      let down = saturating_sub start.interest end.interest in
      let up = saturating_sub end.interest start.interest in
      ground (
        arith,
        laws.saturating_sub_difference start.interest end.interest,
        laws.saturating_sub_difference end.interest start.interest,
        laws.saturating_sub_difference start.interest (times_ratio ratio down),
        laws.saturating_add_sum start.interest (times_ratio ratio up),
        part_bound ratio down bound,
        part_bound ratio up bound,
      )

  get_elem-Within :
      (points : List IdealInterestPoint) (lo hi i : ℕ) {p : IdealInterestPoint}
      → AllWithin lo hi points
      → get_elem? points i ≡ some p
      → (lo ≤ p.interest) × (p.interest ≤ hi)
  get_elem-Within [] lo hi i all h = cc
  get_elem-Within (q ∷ qs) lo hi zero all h = ground arith
  get_elem-Within (q ∷ qs) lo hi (suc i) all h = get_elem-Within qs lo hi i all.1 h

  last-IsWithin :
      (p : IdealInterestPoint) (points : List IdealInterestPoint) (lo hi : ℕ)
      → AllWithin lo hi (p ∷ points)
      → IsWithin lo hi (interest_of (last (p ∷ points)))
  unfolding last
  last-IsWithin p [] lo hi all = (p.interest, refl, all.0.0, all.0.1)
  last-IsWithin p (q ∷ qs) lo hi all = last-IsWithin q qs lo hi all.1

  -- A position that is found is one of the list.
  position-get_elem :
      (points : List IdealInterestPoint) (block i : ℕ)
      → position points block ≡ some i
      → (p : IdealInterestPoint) × (get_elem? points i ≡ some p)
  unfolding position
  position-get_elem [] block i h = cc
  position-get_elem (q ∷ qs) block zero h = (q, refl)
  position-get_elem (q ∷ qs) block (suc i) h = position-get_elem qs block i (ground arith)

  earlier-get_elem :
      (points : List IdealInterestPoint) (i : ℕ) {p : IdealInterestPoint}
      → get_elem? points (suc i) ≡ some p
      → (q : IdealInterestPoint) × (get_elem? points i ≡ some q)
  earlier-get_elem [] i h = cc
  earlier-get_elem (q ∷ qs) zero h = (q, refl)
  earlier-get_elem (q ∷ qs) (suc i) h = earlier-get_elem qs i h

  -- With at least one point, every block has an ideal interest, which is between any bounds that
  -- the interests of all points are between, whatever the blocks of the points are.
  pub get_ideal_interest-IsWithin :
      (p : IdealInterestPoint) (points : List IdealInterestPoint) (block lo hi : ℕ)
      → AllWithin lo hi (p ∷ points)
      → hi ≤ billion
      → IsWithin lo hi (get_ideal_interest config perbill (p ∷ points) block)
  unfolding get_ideal_interest
  get_ideal_interest-IsWithin p points block lo hi all small =
      elim (Option-cases (position (p ∷ points) block)) [
        | inl beyond ↦ rw beyond (last-IsWithin p points lo hi all)
        | inr (zero, found) ↦ rw found (p.interest, refl, all.0.0, all.0.1)
        | inr (suc i, found) ↦
            let (end, at_end) = position-get_elem (p ∷ points) block (suc i) found in
            let (start, at_start) = earlier-get_elem (p ∷ points) i at_end in
            let (ls, sh) = get_elem-Within (p ∷ points) lo hi i all at_start in
            let (le, eh) = get_elem-Within (p ∷ points) lo hi (suc i) all at_end in
            rw (found, at_start, at_end)
              (
                compute_ideal_interest config perbill block start end,
                refl,
                (compute-IsWithin block lo hi start end ls sh le eh small).0,
                (compute-IsWithin block lo hi start end ls sh le eh small).1,
              )
      ]

module _ (config : Config) (perbill : Perbill) where
  -- Moving both ends of a segment of the curve by the same number of blocks changes no interest: the
  -- interest of a block depends on the length of the segment, and not on where the segment starts.
  pub compute_ideal_interest-shift :
      (block k : ℕ) (start end : IdealInterestPoint)
      → start.block ≤ end.block
      → end.block + k < u32_mod
      → compute_ideal_interest config perbill block
          (record start { block = start.block + k })
          (record end { block = end.block + k })
        ≡ compute_ideal_interest config perbill block start end
  unfolding compute_ideal_interest
  compute_ideal_interest-shift block k start end ordered small =
      let same : wrapping_sub u32_mod (end.block + k) (start.block + k)
          ≡ wrapping_sub u32_mod end.block start.block =
        omega arith in
      rw same refl
