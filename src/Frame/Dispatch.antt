-- ===== src/Frame/Dispatch.antt =====
-- Dispatch functions: storage passed as a state, errors as values. What was written before an
-- error stays written, so the state comes back beside the error too.
use xxchain.Common.{
  ℕ, ◌≡◌, ◌⊎◌, inl, inr, refl, ap, Bool, true, false, Option, none, some, List, [], ◌∷◌,
  if◌then◌else◌,
}

-- The `decl_error!` enumerations of the pallets.
pub data BridgeError : Type 0 where
  threshold_not_set invalid_chain_id invalid_threshold chain_not_whitelisted : BridgeError
  chain_already_whitelisted resource_does_not_exist relayer_already_exists : BridgeError
  relayer_invalid must_be_relayer relayer_already_voted proposal_already_exists : BridgeError
  proposal_does_not_exist proposal_not_complete proposal_already_complete : BridgeError
  proposal_expired : BridgeError

pub data SwapError : Type 0 where
  destination_not_whitelisted insufficient_balance : SwapError

pub data PublicError : Type 0 where
  must_be_testnet_manager must_be_sale_manager not_enough_funds : PublicError

pub data CmixError : Type 0 where
  admin_permission_expired must_be_scheduling : CmixError

pub data CustodyError : Type 0 where
  invalid_team_member invalid_custody_account must_be_custodian payout_not_available : CustodyError
  payout_failed_insufficient_funds custody_period_ended governance_custody_active : CustodyError
  governance_custody_period_ended team_member_exists : CustodyError

pub data ClaimsError : Type 0 where
  invalid_ethereum_signature signer_has_no_claim sender_has_no_claim pot_underflow : ClaimsError
  invalid_statement vested_balance_exists : ClaimsError

pub data RewardsError : Type 0 where
  no_rewards enactment_block_has_passed : RewardsError

-- `sp_runtime::DispatchError`, as far as it occurs; `other` is an error of a pallet that is not
-- under this repository.
pub data DispatchError : Type 0 where
  bad_origin : DispatchError
  chainbridge : BridgeError → DispatchError
  swap : SwapError → DispatchError
  xx_public : PublicError → DispatchError
  xx_cmix : CmixError → DispatchError
  xx_custody : CustodyError → DispatchError
  claims_error : ClaimsError → DispatchError
  betanet_rewards : RewardsError → DispatchError
  other : ℕ → DispatchError
  -- not an error: the code panics
  panicked : DispatchError

pub data Result {ℓ} (A : Type ℓ) : Type ℓ where
  ok : A → Result A
  err : DispatchError → Result A

abbrev pub Exec : Type 0 → Type 0 → Type 0
Exec S A = S → Result A × S

abbrev pub DispatchResult : Type 0 → Type 0
DispatchResult S = Exec S (Unit {0})

module _ {S A : Type 0} where
  abbrev pub pure : A → Exec S A
  pure a s = (ok a, s)

  abbrev pub fail : DispatchError → Exec S A
  fail e s = (err e, s)

  -- `Option::ok_or`
  abbrev pub ok_or : Option A → DispatchError → Exec S A
  ok_or none e s = (err e, s)
  ok_or (some a) e s = (ok a, s)

  abbrev pub gets : (S → A) → Exec S A
  gets f s = (ok (f s), s)

infixl 5 ◌>>=◌ ◌>>◌
abbrev pub ◌>>=◌ : {S A B : Type 0} → Exec S A → (A → Exec S B) → Exec S B
◌>>=◌ m f s = let (r, s') = m s in elim r [ ok a ↦ f a s' | err e ↦ (err e, s') ]

abbrev pub ◌>>◌ : {S A B : Type 0} → Exec S A → Exec S B → Exec S B
m >> k = m >>= λ _. k

-- A chain goes on after a success, and stops at an error.
pub bind-ok :
    {S A B : Type 0} (m : Exec S A) (f : A → Exec S B) {s t : S} {a : A}
    → m s ≡ (ok a, t)
    → (m >>= f) s ≡ f a t
bind-ok {S} {A} {B} m f h =
    ap (λ (x : Result A × S). let (r, u) = x in elim r [ ok a ↦ f a u | err e ↦ (err e, u) ]) h

-- What a chain that succeeds went through.
pub bind-inversion :
    {S A B : Type 0} (m : Exec S A) (f : A → Exec S B) (s : S) {b : B}
    → ((m >>= f) s).0 ≡ ok b
    → (a : A) × ((m s).0 ≡ ok a) × ((m >>= f) s ≡ f a (m s).1)
bind-inversion {S} {A} {B} m f s {b} h = go (m s).0 (m s).1 h
  where
    continued : Result A → S → Result B × S
    continued r t = elim r [ ok a ↦ f a t | err e ↦ (err e, t) ]

    go :
        (r : Result A) (t : S)
        → (continued r t).0 ≡ ok b
        → (a : A) × (r ≡ ok a) × (continued r t ≡ f a t)
    go (ok a) t h = (a, refl, refl)
    go (err x) t h = cc

-- What both parts of a chain keep, the chain keeps.
pub bind-keeps :
    {S A B : Type 0} (Kept : S → Type 0) (m : Exec S A) (k : Exec S B)
    → ((s : S) → Kept s → Kept (m s).1)
    → ((s : S) → Kept s → Kept (k s).1)
    → (s : S) → Kept s
    → Kept ((m >> k) s).1
bind-keeps {S} {A} {B} Kept m k keeps_m keeps_k s kept = go (m s).0 (m s).1 (keeps_m s kept)
  where
    continued : Result A → S → Result B × S
    continued r t = elim r [ ok a ↦ k t | err e ↦ (err e, t) ]

    go : (r : Result A) (t : S) → Kept t → Kept (continued r t).1
    go (ok a) t kept_t = keeps_k t kept_t
    go (err e) t kept_t = kept_t

pub Result-cases :
    {A : Type 0} (r : Result A) → ((a : A) × (r ≡ ok a)) ⊎ ((e : DispatchError) × (r ≡ err e))
Result-cases (ok a) = inl (a, refl)
Result-cases (err e) = inr (e, refl)

pub bind-err :
    {S A B : Type 0} (m : Exec S A) (f : A → Exec S B) {s t : S} {e : DispatchError}
    → m s ≡ (err e, t)
    → (m >>= f) s ≡ (err e, t)
bind-err {S} {A} {B} m f h =
    ap (λ (x : Result A × S). let (r, u) = x in elim r [ ok a ↦ f a u | err e ↦ (err e, u) ]) h

module _ {S : Type 0} where
  -- `ensure!`
  abbrev pub ensure : Bool → DispatchError → DispatchResult S
  ensure b e s = (if b then ok tt else err e, s)

  abbrev pub modify : (S → S) → DispatchResult S
  modify f s = (ok tt, f s)

-- A call of one pallet from the state of a larger part of the runtime.
abbrev pub within : {S T A : Type 0} → (T → S) → (T → S → T) → Exec S A → Exec T A
within part put m t = let (r, s) = m (part t) in (r, put t s)

pub data Origin : Type 0 where
  root unsigned : Origin
  signed : ℕ → Origin
  -- an origin of another pallet, such as a collective
  custom : ℕ → Origin

module _ {S : Type 0} where
  abbrev pub ensure_signed : Origin → Exec S ℕ
  ensure_signed (Origin.signed who) = pure who
  ensure_signed _ = fail bad_origin

  abbrev pub ensure_root : Origin → DispatchResult S
  ensure_root Origin.root = pure tt
  ensure_root _ = fail bad_origin

  abbrev pub ensure_none : Origin → DispatchResult S
  ensure_none Origin.unsigned = pure tt
  ensure_none _ = fail bad_origin

  -- `Admin::try_origin(o).map(|_| ()).or_else(ensure_root)`
  abbrev pub origin_or_root : (Origin → Bool) → Origin → DispatchResult S
  origin_or_root admin o = if admin o then pure tt else ensure_root o

-- Whether an origin passes `origin_or_root`.
abbrev pub is_root : Origin → Bool
is_root Origin.root = true
is_root _ = false

-- The call fails and changes nothing.
abbrev pub Refuses : {S : Type 0} → DispatchResult S → S → Type 0
Refuses m s = (e : DispatchError) × (m s ≡ (err e, s))

-- `for x in xs { f(x)?; }`
abbrev pub try_for_each : {S A : Type 0} → (A → DispatchResult S) → List A → DispatchResult S
try_for_each f [] = pure tt
try_for_each f (x ∷ xs) = let rest = try_for_each f xs in f x >> rest
