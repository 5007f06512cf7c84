-- ===== src/Claims/Paid.antt =====
-- What process_claim of claims/src/lib.rs pays, and when.
use xxchain.Common.{
  ℕ, ◌+◌, ◌-◌, ◌≤◌, ◌≡◌, refl, ap, ◌∙◌, ◌≢◌, Bool, true, false, ◌&&◌, Option, none, some, List, [],
  ◌∷◌, arith, is_some, unwrap_or, list_eq, list_beq_iff, nat_eq, leb, if◌then◌else◌, Bool-cases,
  Option-cases, inl, inr,
}
use xxchain.Frame.{
  Result, ok, err, ClaimsError, claims_error, signer_has_no_claim, pot_underflow,
  vested_balance_exists,
}
use xxchain.Frame.StorageMap.{StorageMap, get, remove, get-remove}
use xxchain.Claims.Storage.{Claims, EthereumAddress, Externals, RewardHandler, Schedule, claimed}
use xxchain.Claims.Process.{add_schedules, add_optional, call_handler, settle, process_claim}

-- The currency as far as a claim touches it: what it pays and what it leaves alone. A deposit that
-- would leave less than the existential deposit in the account may be dropped.
pub record PaysOut {W : Type 0} (externals : Externals W) (handler : RewardHandler W) : Type 0 where
  pub balance : W → ℕ → ℕ
  pub existential_deposit : ℕ
  pub deposit_credits :
      (who value : ℕ) (w : W)
      → existential_deposit ≤ balance w who + value
      → balance (externals.deposit_creating who value w) who ≡ balance w who + value
  pub deposit_others :
      (who value x : ℕ) (w : W)
      → x ≢ who
      → balance (externals.deposit_creating who value w) x ≡ balance w x
  pub vesting_keeps :
      (who locked per_block start x : ℕ) (w : W)
      → balance (externals.add_vesting_schedule who locked per_block start w).1 x ≡ balance w x
  pub handler_keeps :
      (dest claim reward x : ℕ) (w : W)
      → balance (handler.add_claimed dest claim reward w) x ≡ balance w x

module _ {W : Type 0} (externals : Externals W) (handler : RewardHandler W) where
  -- Nothing of a signer's claim is left, and nothing else is touched.
  pub record Cleared (s t : Claims W) (signer : EthereumAddress) : Type 0 where
    pub no_claim : get t.claims signer ≡ none
    pub no_vesting : get t.vesting signer ≡ none
    pub no_signing : get t.signing signer ≡ none
    pub no_reward : get t.rewards signer ≡ none
    pub other_claims : (j : EthereumAddress) → j ≢ signer → get t.claims j ≡ get s.claims j
    pub other_vesting : (j : EthereumAddress) → j ≢ signer → get t.vesting j ≡ get s.vesting j
    pub other_signing : (j : EthereumAddress) → j ≢ signer → get t.signing j ≡ get s.signing j
    pub other_rewards : (j : EthereumAddress) → j ≢ signer → get t.rewards j ≡ get s.rewards j
    pub preclaims : t.preclaims ≡ s.preclaims

  -- What a claim of an amount does.
  pub record Paid (laws : PaysOut externals handler) (s t : Claims W) (signer : EthereumAddress)
      (dest due : ℕ) : Type 0 where
    pub credited :
        laws.existential_deposit ≤ laws.balance s.world dest + due
        → laws.balance t.world dest ≡ laws.balance s.world dest + due
    pub others : (x : ℕ) → x ≢ dest → laws.balance t.world x ≡ laws.balance s.world x
    pub total : t.total + due ≡ s.total
    pub cleared : Cleared s t signer
    pub event : t.events ≡ claimed dest signer due (unwrap_or (get s.rewards signer) 0) ∷ s.events

  -- The account has vesting of its own, and the claim would add more.
  abbrev pub has_both : Claims W → EthereumAddress → ℕ → Bool
  has_both s signer dest =
      is_some (get s.vesting signer) && is_some (externals.vesting_balance s.world dest)

  balance-add_schedules :
      (laws : PaysOut externals handler) (dest x : ℕ) (vs : List Schedule) (w : W)
      → laws.balance (add_schedules externals handler dest vs w) x ≡ laws.balance w x
  unfolding add_schedules
  balance-add_schedules laws dest x [] w = refl
  balance-add_schedules laws dest x (v ∷ vs) w =
      balance-add_schedules laws dest x vs (externals.add_vesting_schedule dest v.0 v.1 v.2 w).1
      ∙ laws.vesting_keeps dest v.0 v.1 v.2 x w

  balance-add_optional :
      (laws : PaysOut externals handler) (dest x : ℕ) (o : Option (List Schedule)) (w : W)
      → laws.balance (add_optional externals handler dest o w) x ≡ laws.balance w x
  balance-add_optional laws dest x none w = refl
  balance-add_optional laws dest x (some vs) w = balance-add_schedules laws dest x vs w

  balance-call_handler :
      (laws : PaysOut externals handler) (dest due x : ℕ) (o : Option ℕ) (w : W)
      → laws.balance (call_handler externals handler dest due o w) x ≡ laws.balance w x
  balance-call_handler laws dest due x none w = refl
  balance-call_handler laws dest due x (some reward) w = laws.handler_keeps dest due reward x w

  -- The state of the others after the claim.
  abbrev pub world_after : Claims W → EthereumAddress → ℕ → ℕ → W
  world_after s signer dest due = call_handler externals handler dest due (get s.rewards signer) (
      add_optional externals handler dest (get s.vesting signer)
        (externals.deposit_creating dest due s.world))

  pub balance-world_after :
      (laws : PaysOut externals handler) (s : Claims W) (signer : EthereumAddress) (dest due x : ℕ)
      → laws.balance (world_after s signer dest due) x
        ≡ laws.balance (externals.deposit_creating dest due s.world) x
  balance-world_after laws s signer dest due x =
      balance-call_handler laws dest due x (get s.rewards signer) _
      ∙ balance-add_optional laws dest x (get s.vesting signer) _

  pub settle_lem :
      (s : Claims W) (signer : EthereumAddress) (dest due new_total : ℕ)
      → settle externals handler signer dest due new_total s ≡ (
        ok tt,
        record s {
          world = world_after s signer dest due;
          rewards = remove s.rewards signer;
          total = new_total;
          claims = remove s.claims signer;
          vesting = remove s.vesting signer;
          signing = remove s.signing signer;
          events = claimed dest signer due (unwrap_or (get s.rewards signer) 0) ∷ s.events;
        },
      )
  unfolding settle
  settle_lem s signer dest due new_total = refl

  pub process_claim_settles :
      (s : Claims W) (signer : EthereumAddress) (dest due : ℕ)
      → get s.claims signer ≡ some due
      → due ≤ s.total
      → has_both s signer dest ≡ false
      → process_claim externals handler signer dest s
        ≡ settle externals handler signer dest due (s.total - due) s
  unfolding process_claim
  process_claim_settles s signer dest due stored covered free =
      let enough : leb due s.total ≡ true = ground arith in rw (stored, enough, free) refl

  gone :
      {V : Type 0} (m : StorageMap EthereumAddress V) (signer : EthereumAddress)
      → get (remove m signer) signer ≡ none
  gone m signer = rw get-remove (ground (arith, list_beq_iff signer signer))

  kept :
      {V : Type 0} (m : StorageMap EthereumAddress V) (signer j : EthereumAddress)
      → j ≢ signer
      → get (remove m signer) j ≡ get m j
  kept m signer j ne = rw get-remove (ground (arith, list_beq_iff signer j))

  settled-Cleared :
      (s : Claims W) (signer : EthereumAddress) (dest due new_total : ℕ)
      → Cleared s (settle externals handler signer dest due new_total s).1 signer
  settled-Cleared s signer dest due new_total =
      rw (settle_lem s signer dest due new_total) (record {
        no_claim = gone s.claims signer;
        no_vesting = gone s.vesting signer;
        no_signing = gone s.signing signer;
        no_reward = gone s.rewards signer;
        other_claims = kept s.claims signer;
        other_vesting = kept s.vesting signer;
        other_signing = kept s.signing signer;
        other_rewards = kept s.rewards signer;
        preclaims = refl;
      })

  -- A signer with a claim that the total covers is paid, unless the claim has vesting schedules and
  -- the account has vesting already: the call succeeds, exactly the claim is credited to the account
  -- (if that leaves at least the existential deposit in it) and taken off the total, every entry of
  -- the signer is removed, other accounts and other entries are untouched, and one event tells the
  -- amount and the reward that was on record.
  pub process_claim-Paid :
      (laws : PaysOut externals handler) (s : Claims W) (signer : EthereumAddress) (dest due : ℕ)
      → get s.claims signer ≡ some due
      → due ≤ s.total
      → has_both s signer dest ≡ false
      → ((process_claim externals handler signer dest s).0 ≡ ok tt)
        × Paid laws s (process_claim externals handler signer dest s).1 signer dest due
  process_claim-Paid laws s signer dest due stored covered free =
      let e = process_claim_settles s signer dest due stored covered free in
      rw e (
        ap (λ (x : Result (Unit {0}) × Claims W). x.0)
            (settle_lem s signer dest due (s.total - due)),
        record {
          credited = λ enough. rw (settle_lem s signer dest due (s.total - due)) (
              balance-world_after laws s signer dest due dest
              ∙ laws.deposit_credits dest due s.world enough);
          others = λ x ne. rw (settle_lem s signer dest due (s.total - due)) (
              balance-world_after laws s signer dest due x
              ∙ laws.deposit_others dest due x s.world ne);
          total = rw (settle_lem s signer dest due (s.total - due)) (omega arith);
          cleared = settled-Cleared s signer dest due (s.total - due);
          event = rw (settle_lem s signer dest due (s.total - due)) refl;
        },
      )

  -- The reason for which a claim is refused; none if it is paid.
  abbrev pub refusal : Claims W → EthereumAddress → ℕ → Option ClaimsError
  refusal s signer dest = elim (get s.claims signer) [
    | none ↦ some signer_has_no_claim
    | some due ↦
        if leb due s.total
        then if has_both s signer dest then some vested_balance_exists else none
        else some pot_underflow
  ]

  -- A claim that is not paid is refused for the first of these reasons that applies, with nothing
  -- changed: there is no claim, the total does not cover it, it has vesting schedules and the account
  -- has vesting already.
  pub process_claim-Refused :
      (s : Claims W) (signer : EthereumAddress) (dest : ℕ) (e : ClaimsError)
      → refusal s signer dest ≡ some e
      → process_claim externals handler signer dest s ≡ (err (claims_error e), s)
  unfolding process_claim
  process_claim-Refused s signer dest e h = elim (Option-cases (get s.claims signer)) [
    | inl missing ↦
        let same : some signer_has_no_claim ≡ some e = rw (missing, refusal) at h in
        rw missing (ground arith)
    | inr (due, stored) ↦ elim (Bool-cases (leb due s.total)) [
      | inl enough ↦ elim (Bool-cases (has_both s signer dest)) [
        | inl both ↦
            let same : some vested_balance_exists ≡ some e =
              rw (stored, refusal, enough, both) at h in
            rw (stored, enough, both) (ground arith)
        | inr free ↦
            let same : none ≡ some e = rw (stored, refusal, enough, free) at h in absurd (cc same)
      ]
      | inr short ↦
          let same : some pot_underflow ≡ some e = rw (stored, refusal, short) at h in
          rw (stored, short) (ground arith)
    ]
  ]
