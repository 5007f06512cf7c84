-- ===== src/Custody/Members.antt =====
-- The genesis build and the replacement of a member of xx-team-custody keep the books in order.
use mathlib.Core.Path.{subst}
use xxchain.Common.{
  ℕ, ◌+◌, ◌^◌, ◌≤◌, ◌<◌, ◌≡◌, refl, sym, false, not, ◌⊎◌, none, some, arith, inl, inr, Bool-cases,
  Option-cases, ◌==◌, nat_eq,
}
use xxchain.Frame.{
  Origin, Result, ok, err, DispatchResult, ◌>>◌, origin_or_root, ensure, xx_custody,
  invalid_team_member, team_member_exists, bad_origin, bind-ok, bind-err, panicked,
}
use xxchain.Frame.StorageMap.{
  get, insert, remove, contains_key, get-insert, get-remove, insert-IsProper, remove-IsProper,
}
use xxchain.Frame.StorageMap.Totals.{total, total-insert_new, total-remove}
use xxchain.Frame.Perbill.{Perbill, IsPerbill}
use xxchain.Custody.Pallet.{
  CustodyInfo, Config, Externals, Custody, deposit_event, team_member_updated,
}
use xxchain.Custody.Calls.{
  initialize_custody, replace_team_member, update_team_member, is_team_member,
}
use xxchain.Custody.Square.{IsModest, allocation_of, vested_of}
use xxchain.Custody.Schedule.{scheduled}
use xxchain.Custody.Keeps.{InOrder}

module _ (config : Config) (perbill : Perbill) {W : Type 0} (externals : Externals W) where
  -- A new member with a new allocation, nothing of it paid.
  pub initialize_custody-InOrder :
      (who amount : ℕ) (s : Custody W)
      → IsPerbill perbill
      → InOrder config perbill externals s
      → get s.team_accounts who ≡ none
      → amount + total allocation_of s.team_accounts < 2 ^ 127
      → IsModest config perbill externals amount
      → InOrder config perbill externals (initialize_custody config perbill externals who amount s)
  unfolding initialize_custody
  initialize_custody-InOrder who amount s laws (sq, sched) new room modest =
      let info : CustodyInfo = record {
        allocation = amount;
        vested = 0;
        custody = externals.pure_account who 0;
        reserve = externals.pure_account who 1;
      } in
      let reserve =
        laws.times_bound (perbill.from_rational 55555556 1000000000) amount
          (laws.from_rational_bound 55555556 1000000000) in
      let a = total-insert_new allocation_of s.team_accounts who info new in
      let v = total-insert_new vested_of s.team_accounts who info new in
      (
        record {
          proper = insert-IsProper s.team_accounts who info sq.proper;
          square = omega (arith, a, v, sq.square, reserve, sq.fits);
          fits = omega (arith, a);
          within = λ k i. rw get-insert (elim (Bool-cases (who == k)) [
            | inl hit ↦ rw hit (λ e.
                let same : info ≡ i = cc in
                subst (λ (x : CustodyInfo). x.vested ≤ x.allocation) same (omega arith))
            | inr miss ↦ rw miss (sq.within k i)
          ]);
        },
        λ k i. rw get-insert (elim (Bool-cases (who == k)) [
          | inl hit ↦ rw hit (λ e.
              let same : info ≡ i = cc in
              subst
                (λ (x : CustodyInfo).
                  (x.vested ≤ scheduled config perbill externals x s.block_number)
                  × IsModest config perbill externals x.allocation)
                same (omega arith, modest))
          | inr miss ↦ rw miss (sched k i)
        ]),
      )

  -- The info of a member, moved to an account that is no member.
  moved-InOrder :
      (who new : ℕ) (info : CustodyInfo) (s t : Custody W)
      → InOrder config perbill externals s
      → get s.team_accounts who ≡ some info
      → get s.team_accounts new ≡ none
      → t.team_accounts ≡ insert (remove s.team_accounts who) new info
      → t.total_custody ≡ s.total_custody
      → t.block_number ≡ s.block_number
      → InOrder config perbill externals t
  moved-InOrder who new info s t (sq, sched) stored fresh accounts held time =
      let rest = remove s.team_accounts who in
      let absent : get rest new ≡ none = rw get-remove (ground arith) in
      let a0 = total-remove allocation_of s.team_accounts who sq.proper stored in
      let v0 = total-remove vested_of s.team_accounts who sq.proper stored in
      let a1 = total-insert_new allocation_of rest new info absent in
      let v1 = total-insert_new vested_of rest new info absent in
      (
        record {
          proper =
              rw accounts
                (insert-IsProper rest new info (remove-IsProper s.team_accounts who sq.proper));
          square = rw (accounts, held) (omega (arith, a0, a1, v0, v1, sq.square));
          fits = rw accounts (omega (arith, a0, a1, sq.fits));
          within = λ k i.
              rw (accounts, get-insert, get-remove)
                (elim (Bool-cases (new == k)) [
                  | inl hit ↦ rw hit (λ e.
                      let same : info ≡ i = cc in
                      subst (λ (x : CustodyInfo). x.vested ≤ x.allocation) same
                        (sq.within who info stored))
                  | inr miss ↦ rw miss (ground (arith, sq.within k i))
                ]);
        },
        λ k i.
            rw (accounts, time, get-insert, get-remove)
              (elim (Bool-cases (new == k)) [
                | inl hit ↦ rw hit (λ e.
                    let same : info ≡ i = cc in
                    subst
                      (λ (x : CustodyInfo).
                        (x.vested ≤ scheduled config perbill externals x s.block_number)
                        × IsModest config perbill externals x.allocation)
                      same (sched who info stored))
                | inr miss ↦ rw miss (ground (arith, sched k i))
              ]),
      )

  not_stored :
      (s : Custody W) (new : ℕ) → is_team_member s new ≡ false → get s.team_accounts new ≡ none
  unfolding contains_key
  not_stored s new h = elim (Option-cases (get s.team_accounts new)) [
    | inl absent ↦ absent
    | inr (i, stored) ↦ absurd (ground arith)
  ]

  -- The books in order, after a result.
  abbrev After : Result (Unit {0}) × Custody W → Type 0
  After r = InOrder config perbill externals r.1

  -- The last two steps of the replacement.
  abbrev replace : ℕ → ℕ → DispatchResult (Custody W)
  replace who new = update_team_member who new >> deposit_event (team_member_updated who new)

  update-InOrder :
      (who new : ℕ) (s : Custody W)
      → InOrder config perbill externals s
      → is_team_member s new ≡ false
      → After (replace who new s)
  unfolding update_team_member
  update-InOrder who new s order stranger =
      let report : DispatchResult (Custody W) = deposit_event (team_member_updated who new) in
      elim (Option-cases (get s.team_accounts who)) [
        | inl missing ↦
            let gone : update_team_member who new s ≡ (err panicked, s) =
              rw (missing, update_team_member) refl in
            subst After (sym (bind-err (update_team_member who new) (λ _. report) gone)) order
        | inr (info, stored) ↦
            let moved : Custody W = record s {
              team_accounts = insert (remove s.team_accounts who) new info;
            } in
            let done : update_team_member who new s ≡ (ok tt, moved) =
              rw (stored, update_team_member) refl in
            subst After (sym (bind-ok (update_team_member who new) (λ _. report) done)) (
              moved-InOrder who new info s (report moved).1 order stored (not_stored s new stranger)
                refl refl refl)
      ]

  origin-cases :
      (o : Origin) (s : Custody W)
      → (origin_or_root config.admin_origin o s ≡ (ok tt, s))
        ⊎ (origin_or_root config.admin_origin o s ≡ (err bad_origin, s))
  origin-cases Origin.root s = inl (ground arith)
  origin-cases o s = elim (Bool-cases (config.admin_origin o)) [
    | inl admin ↦ inl (rw admin refl)
    | inr stranger ↦ inr (rw stranger refl)
  ]

  -- The guards on the two accounts.
  abbrev checked : Custody W → ℕ → ℕ → DispatchResult (Custody W)
  checked s who new =
      ensure (is_team_member s who) (xx_custody invalid_team_member)
      >> (ensure (not (is_team_member s new)) (xx_custody team_member_exists) >> replace who new)

  checked-InOrder :
      (who new : ℕ) (s : Custody W)
      → InOrder config perbill externals s
      → After (checked s who new s)
  checked-InOrder who new s order = elim (Bool-cases (is_team_member s who)) [
    | inr unknown ↦ rw unknown order
    | inl member ↦ elim (Bool-cases (is_team_member s new)) [
      | inl taken ↦ rw (member, taken) order
      | inr free ↦ rw (member, free) (update-InOrder who new s order free)
    ]
  ]

  -- A replacement, whatever its origin and whether it succeeds or not, keeps the books in order.
  pub replace_team_member-InOrder :
      (o : Origin) (who new : ℕ) (s : Custody W)
      → InOrder config perbill externals s
      → InOrder config perbill externals
          (replace_team_member config perbill externals o who new s).1
  unfolding replace_team_member
  replace_team_member-InOrder o who new s order =
      let admin = origin_or_root config.admin_origin o in
      elim (origin-cases o s) [
        | inl passed ↦
            subst After (sym (bind-ok admin (λ _. checked s who new) passed))
              (checked-InOrder who new s order)
        | inr refused ↦ subst After (sym (bind-err admin (λ _. checked s who new) refused)) order
      ]
