-- ===== src/Betanet/Course.antt =====
-- The program of xx-betanet-rewards/src/lib.rs over the blocks of the chain.
use xxchain.Common.{
  ℕ, suc, ◌≤◌, ◌<◌, ◌≡◌, refl, Bool, true, false, List, [], ◌∷◌, arith, list_eq, nat_eq,
  nat_beq_iff, inl, inr, Bool-cases, ◌==◌, if◌then◌else◌, leb, ltb,
}
use xxchain.Frame.{Origin}
use xxchain.Frame.Perbill.{Perbill}
use xxchain.Frame.StorageMap.{empty, contains_key}
use xxchain.Frame.StorageMap.Drain.{for_each_keeps}
use xxchain.Claims.Storage.{Claims, on_world}
use xxchain.Betanet.Pallet.{
  Betanet, Event, program_enacted, option_selected, program_approved, add_claimed,
}
use xxchain.Betanet.Pallet
use xxchain.Betanet.Enact.{
  Externals, credit_claim, lock_claim, process_leftover_claim, process_rewards, process_claims,
  enact_program, enacted, on_initialize,
}
use xxchain.Betanet.Program.{Call, select_option, approve, run}

-- How often the events report an enactment.
abbrev pub enactments : List Event → ℕ
enactments [] = 0
enactments (program_enacted ∷ es) = suc (enactments es)
enactments (option_selected who option ∷ es) = enactments es
enactments (program_approved ∷ es) = enactments es

module _ (p : Perbill) (enactment_block : ℕ) {Bank : Type 0} (externals : Externals Bank) where
  -- The program was not enacted, or once; then its block has come and no account is left in it.
  abbrev pub OnCourse : Betanet Bank → Type 0
  OnCourse w =
      (enactments w.events ≤ 1)
      × (enactments w.events ≡ 1 → (enactment_block ≤ w.block_number) × (w.accounts ≡ empty))

  -- What the enactment leaves of the pallet's own storage.
  abbrev Drained : Betanet Bank → Betanet Bank → Type 0
  Drained w v = (v.accounts ≡ empty) × (v.events ≡ w.events) × (v.block_number ≡ w.block_number)

  leftover-Drained :
      (w : Betanet Bank) (k : List ℕ) (v : ℕ) (s : Claims (Betanet Bank))
      → Drained w s.world
      → Drained w (process_leftover_claim p enactment_block externals k v s).world
  unfolding process_leftover_claim credit_claim lock_claim
  leftover-Drained w k v s (accounts, events, block) = ground arith

  enact_program-Drained :
      (s : Claims (Betanet Bank))
      → Drained s.world (enact_program p enactment_block externals s).world
  unfolding enact_program process_claims process_rewards
  enact_program-Drained s =
      for_each_keeps (λ (t : Claims (Betanet Bank)). Drained s.world t.world)
        (process_leftover_claim p enactment_block externals) (leftover-Drained s.world) s.rewards _
        (refl, refl, refl)

  -- What happened since a state: calls of the pallet, claims that are made, blocks, each of which
  -- runs `on_initialize`; the claims pallet, its storage and the balances may change at any time.
  pub data History (start : Claims (Betanet Bank)) : Claims (Betanet Bank) → Type 0 where
    begin : History start start
    called :
        {s : Claims (Betanet Bank)} (o : Origin) (c : Call)
        → History start s
        → History start (on_world (run enactment_block o c) s).1
    registered :
        {s : Claims (Betanet Bank)} (dest claim reward : ℕ)
        → History start s
        → History start (record s { world = add_claimed enactment_block dest claim reward s.world })
    elsewhere :
        {s : Claims (Betanet Bank)} (t : Claims (Betanet Bank)) (bank : Bank)
        → t.world ≡ record s.world { bank = bank }
        → History start s
        → History start t
    block :
        {s : Claims (Betanet Bank)} (n : ℕ)
        → s.world.block_number < n
        → History start s
        → History start (
            on_initialize p enactment_block externals n
              (record s { world = record s.world { block_number = n } }))

  before_block :
      (w : Betanet Bank)
      → ltb w.block_number enactment_block ≡ true
      → enactment_block ≤ w.block_number
      → ⊥
  before_block w early late = ground arith

  run-OnCourse :
      (o : Origin) (c : Call) (w : Betanet Bank)
      → OnCourse w
      → OnCourse (run enactment_block o c w).1
  unfolding run Pallet.select_option Pallet.approve
  run-OnCourse (Origin.signed who) (select_option option) w (few, after) =
      elim (Bool-cases (contains_key w.accounts who)) [
        | inl has ↦ elim (Bool-cases (ltb w.block_number enactment_block)) [
          | inl early ↦ rw (has, early) (few, λ once. absurd (before_block w early (after once).0))
          | inr late ↦ rw (has, late) (few, after)
        ]
        | inr hasnt ↦ rw hasnt (few, after)
      ]
  run-OnCourse o (select_option option) w h = h
  run-OnCourse Origin.root approve w h = elim (Bool-cases (ltb w.block_number enactment_block)) [
    | inl early ↦ rw early h
    | inr late ↦ rw late h
  ]
  run-OnCourse o approve w h = h

  add_claimed-OnCourse :
      (dest claim reward : ℕ) (w : Betanet Bank)
      → OnCourse w
      → OnCourse (add_claimed enactment_block dest claim reward w)
  unfolding add_claimed
  add_claimed-OnCourse dest claim reward w (few, after) =
      elim (Bool-cases (leb enactment_block w.block_number)) [
        | inl late ↦ rw late (few, after)
        | inr early ↦
            let before : w.block_number < enactment_block = ground arith in
            rw early (few, λ once. absurd (omega (arith, before, (after once).0)))
      ]

  enacted-OnCourse :
      (s : Claims (Betanet Bank)) (n : ℕ)
      → s.world.block_number < n
      → n ≡ enactment_block
      → OnCourse s.world
      → OnCourse
          (enacted p enactment_block externals
            (record s { world = record s.world { block_number = n } })).world
  enacted-OnCourse s n later now (few, after) =
      let (accounts, events, number) =
        enact_program-Drained (record s { world = record s.world { block_number = n } }) in
      let none_yet : enactments s.world.events ≡ 0 =
        elim (Bool-cases (enactments s.world.events == 1)) [
          | inl once ↦
              let e = (nat_beq_iff (enactments s.world.events) 1).0 once in
              absurd (omega (arith, (after e).0, now, later))
          | inr other ↦ ground arith
        ] in
      (rw events (omega (arith, none_yet)), λ _. (rw number (omega (arith, now)), accounts))

  either :
      (b : Bool) (s t : Claims (Betanet Bank))
      → OnCourse s.world
      → OnCourse t.world
      → OnCourse (if b then s else t).world
  either true s t hs ht = hs
  either false s t hs ht = ht

  block-OnCourse :
      (s : Claims (Betanet Bank)) (n : ℕ)
      → s.world.block_number < n
      → OnCourse s.world
      → OnCourse
          (on_initialize p enactment_block externals n
            (record s { world = record s.world { block_number = n } })).world
  unfolding on_initialize
  block-OnCourse s n later (few, after) =
      let passed : OnCourse (record s.world { block_number = n }) =
        (few, λ once. (omega (arith, later, (after once).0), (after once).1)) in
      elim (Bool-cases (n == enactment_block)) [
        | inl now ↦
            let t = record s { world = record s.world { block_number = n } } in
            rw now (
              either s.world.approved (enacted p enactment_block externals t) t
                (enacted-OnCourse s n later ((nat_beq_iff n enactment_block).0 now) (few, after))
                passed)
        | inr other ↦ rw other passed
      ]

  -- From a state without an enactment, whatever calls are made, claims registered and blocks run:
  -- the program is enacted at most once; and once it was, the enactment block has come and no account
  -- is in the program, also not by a later claim or selection.
  pub History-OnCourse :
      {start s : Claims (Betanet Bank)}
      → enactments start.world.events ≡ 0
      → History start s
      → OnCourse s.world
  History-OnCourse fresh begin = (omega (arith, fresh), λ once. absurd (omega (arith, fresh, once)))
  History-OnCourse fresh (called {s = s} o c h) =
      run-OnCourse o c s.world (History-OnCourse fresh h)
  History-OnCourse fresh (registered {s = s} dest claim reward h) =
      add_claimed-OnCourse dest claim reward s.world (History-OnCourse fresh h)
  History-OnCourse fresh (elsewhere t bank same h) = rw same (History-OnCourse fresh h)
  History-OnCourse fresh (block {s = s} n later h) =
      block-OnCourse s n later (History-OnCourse fresh h)
