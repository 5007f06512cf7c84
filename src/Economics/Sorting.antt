-- ===== src/Economics/Sorting.antt =====
-- The sorted points of xx-economics/src/lib.rs.
use mathlib.Core.List.{Permᴰ}
use mathlib.Core.List.Permᴰ
use xxchain.Common.{ℕ, ◌≤◌, refl, List, [], ◌∷◌, arith, leb, inl, inr, Bool-cases}
use xxchain.Economics.Pallet.{IdealInterestPoint, insert_point, sort_points}

-- No point stands before a point of an earlier block.
abbrev pub AllFrom : ℕ → List IdealInterestPoint → Type 0
AllFrom n [] = Unit
AllFrom n (p ∷ ps) = (n ≤ p.block) × AllFrom n ps

abbrev pub IsSorted : List IdealInterestPoint → Type 0
IsSorted [] = Unit
IsSorted (p ∷ ps) = AllFrom p.block ps × IsSorted ps

AllFrom-le : (m n : ℕ) (ps : List IdealInterestPoint) → m ≤ n → AllFrom n ps → AllFrom m ps
AllFrom-le m n [] le h = tt
AllFrom-le m n (p ∷ ps) le h = (omega (arith, h.0), AllFrom-le m n ps le h.1)

insert_point-AllFrom :
    (n : ℕ) (p : IdealInterestPoint) (ps : List IdealInterestPoint)
    → n ≤ p.block
    → AllFrom n ps
    → AllFrom n (insert_point p ps)
unfolding insert_point
insert_point-AllFrom n p [] le h = (le, tt)
insert_point-AllFrom n p (q ∷ qs) le h = elim (Bool-cases (leb p.block q.block)) [
  | inl before ↦ rw before (le, h)
  | inr after ↦ rw after (h.0, insert_point-AllFrom n p qs le h.1)
]

insert_point-IsSorted :
    (p : IdealInterestPoint) (ps : List IdealInterestPoint)
    → IsSorted ps
    → IsSorted (insert_point p ps)
unfolding insert_point
insert_point-IsSorted p [] h = (tt, tt)
insert_point-IsSorted p (q ∷ qs) h = elim (Bool-cases (leb p.block q.block)) [
  | inl before ↦
      let le : p.block ≤ q.block = ground arith in
      rw before ((le, AllFrom-le p.block q.block qs le h.0), h)
  | inr after ↦
      rw after
        (insert_point-AllFrom q.block p qs (ground arith) h.0, insert_point-IsSorted p qs h.1)
]

insert_point-Perm :
    (p : IdealInterestPoint) (ps : List IdealInterestPoint) → Permᴰ (p ∷ ps) (insert_point p ps)
unfolding insert_point
insert_point-Perm p [] = Permᴰ.refl (p ∷ [])
insert_point-Perm p (q ∷ qs) = elim (Bool-cases (leb p.block q.block)) [
  | inl before ↦ rw before (Permᴰ.refl (p ∷ q ∷ qs))
  | inr after ↦
      rw after (Permᴰ.trans (Permᴰ.swap refl refl) (Permᴰ.cons refl (insert_point-Perm p qs)))
]

-- Sorting orders the points by their blocks and keeps exactly the given points.
pub sort_points-IsSorted :
    (ps : List IdealInterestPoint) → IsSorted (sort_points ps) × Permᴰ ps (sort_points ps)
unfolding sort_points
sort_points-IsSorted [] = (tt, Permᴰ.nil)
sort_points-IsSorted (p ∷ ps) =
    let (sorted, same) = sort_points-IsSorted ps in
    (
      insert_point-IsSorted p (sort_points ps) sorted,
      Permᴰ.trans (Permᴰ.cons refl same) (insert_point-Perm p (sort_points ps)),
    )
