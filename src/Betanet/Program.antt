-- ===== src/Betanet/Program.antt =====
-- The course of the program in xx-betanet-rewards/src/lib.rs: who takes part, and when it is enacted.
use xxchain.Common.{
  ℕ, ◌≡◌, ◌≢◌, refl, ◌∙◌, Bool, true, false, ◌&&◌, some, arith, list_eq, nat_eq, inl, inr,
  Bool-cases, Option-cases, ◌==◌, if◌then◌else◌, ltb,
}
use xxchain.Frame.{
  Origin, ok, bad_origin, betanet_rewards, no_rewards, enactment_block_has_passed, DispatchResult,
  Refuses,
}
use xxchain.Frame.StorageMap.{StorageMap, get, contains_key, get-insert}
use xxchain.Betanet.Options.{RewardOption, UserInfo}
use xxchain.Betanet.Pallet.{
  Betanet, Event, program_enacted, option_selected, program_approved, set_option, add_claimed,
}
use xxchain.Betanet.Pallet

-- `enum Call`.
pub data Call : Type 0 where
  select_option : RewardOption → Call
  approve : Call

stored_of :
    (m : StorageMap ℕ UserInfo) (who : ℕ)
    → contains_key m who ≡ true
    → (info : UserInfo) × (get m who ≡ some info)
unfolding contains_key
stored_of m who h = elim (Option-cases (get m who)) [
  | inl missing ↦ let e : false ≡ true = rw (contains_key, missing) at h in absurd (cc e)
  | inr found ↦ found
]

get-set_option :
    (m : StorageMap ℕ UserInfo) (who j : ℕ) (option : RewardOption) (info : UserInfo)
    → get m who ≡ some info
    → get (set_option m who option) j
      ≡ (if who == j then some (record info { option = option }) else get m j)
unfolding set_option
get-set_option m who j option info stored =
    rw (set_option, stored) (get-insert m who j (record info { option = option }))

module _ (enactment_block : ℕ) {Bank : Type 0} where
  unfoldable pub run : Origin → Call → DispatchResult (Betanet Bank)
  run o (select_option option) = Pallet.select_option enactment_block o option
  run o approve = Pallet.approve enactment_block o

  -- Options are selected by accounts that have rewards, and the program is approved by root, before
  -- the enactment block.
  abbrev pub permitted : Betanet Bank → Origin → Call → Bool
  permitted s (Origin.signed who) (select_option option) =
      contains_key s.accounts who && ltb s.block_number enactment_block
  permitted s Origin.root approve = ltb s.block_number enactment_block
  permitted s o c = false

  -- What a permitted call does to the accounts and to the approval.
  abbrev pub Does : Betanet Bank → Betanet Bank → Origin → Call → Type 0
  Does s t (Origin.signed who) (select_option option) =
      (info : UserInfo) × (get s.accounts who ≡ some info)
      × (get t.accounts who ≡ some (record info { option = option }))
      × ((j : ℕ) → j ≢ who → get t.accounts j ≡ get s.accounts j)
      × (t.approved ≡ s.approved)
  Does s t o c = (t.accounts ≡ s.accounts) × (t.approved ≡ true)

  select-Settles :
      (s : Betanet Bank) (who : ℕ) (option : RewardOption)
      → let m = Pallet.select_option enactment_block (Origin.signed who) option in
        let allowed = contains_key s.accounts who && ltb s.block_number enactment_block in
        (allowed ≡ false → Refuses m s)
        × (allowed ≡ true
            → ((m s).0 ≡ ok tt) × Does s (m s).1 (Origin.signed who) (select_option option))
  unfolding Pallet.select_option
  select-Settles s who option = elim (Bool-cases (contains_key s.accounts who)) [
    | inl has ↦ elim (Bool-cases (ltb s.block_number enactment_block)) [
      | inl early ↦
          let (info, stored) = stored_of s.accounts who has in
          rw (has, early)
            (
              λ h. absurd (cc h),
              λ _. (
                refl,
                (
                  info,
                  stored,
                  get-set_option s.accounts who who option info stored ∙ ground arith,
                  λ j ne. get-set_option s.accounts who j option info stored ∙ ground arith,
                  refl,
                ),
              ),
            )
      | inr late ↦
          rw (has, late)
            (λ _. (betanet_rewards enactment_block_has_passed, refl), λ h. absurd (cc h))
    ]
    | inr hasnt ↦ rw hasnt (λ _. (betanet_rewards no_rewards, refl), λ h. absurd (cc h))
  ]

  -- A call that is permitted succeeds; selecting changes the option of that account and nothing else
  -- of it, and approving sets the approval. A call that is not permitted is refused with nothing
  -- changed.
  pub program-Settles :
      (s : Betanet Bank) (o : Origin) (c : Call)
      → (permitted s o c ≡ false → Refuses (run o c) s)
        × (permitted s o c ≡ true → ((run o c s).0 ≡ ok tt) × Does s (run o c s).1 o c)
  unfolding run Pallet.select_option Pallet.approve
  program-Settles s (Origin.signed who) (select_option option) = select-Settles s who option
  program-Settles s Origin.root (select_option option) =
      (λ _. (bad_origin, refl), λ h. absurd (cc h))
  program-Settles s Origin.unsigned (select_option option) =
      (λ _. (bad_origin, refl), λ h. absurd (cc h))
  program-Settles s (Origin.custom n) (select_option option) =
      (λ _. (bad_origin, refl), λ h. absurd (cc h))
  program-Settles s Origin.root approve = elim (Bool-cases (ltb s.block_number enactment_block)) [
    | inl early ↦ rw early (λ h. absurd (cc h), λ _. (refl, (refl, refl)))
    | inr late ↦
        rw late (λ _. (betanet_rewards enactment_block_has_passed, refl), λ h. absurd (cc h))
  ]
  program-Settles s (Origin.signed who) approve = (λ _. (bad_origin, refl), λ h. absurd (cc h))
  program-Settles s Origin.unsigned approve = (λ _. (bad_origin, refl), λ h. absurd (cc h))
  program-Settles s (Origin.custom n) approve = (λ _. (bad_origin, refl), λ h. absurd (cc h))
