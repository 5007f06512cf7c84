-- ===== src/Cmix/Pallet.antt =====
-- The storage, the calls and the era handler of xx-cmix/src/lib.rs. Staking, which counts the points,
-- is a parameter.
use xxchain.Common.{ℕ, Bool, false, Option, none, some, List, [], ◌∷◌, leb, ◌==◌, nat_eq}
use xxchain.Frame.{
  ok, xx_cmix, admin_permission_expired, must_be_scheduling, DispatchResult, ensure, modify, ◌>>=◌,
  ◌>>◌, Origin, ensure_signed, ensure_root, origin_or_root,
}
use xxchain.Cmix.Variables.{SoftwareHashes, Variables, block_points}

pub data Event : Type 0 where
  cmix_hashes_updated : Event
  admin_permission_updated : ℕ → Event
  scheduling_account_updated cmix_variables_updated cmix_address_space_updated : Event
  cmix_points_added cmix_points_deducted : Event

-- `trait Config`, as far as it is data.
pub record Config : Type 0 where
  pub cmix_variables_origin : Origin → Bool
  pub admin_origin : Origin → Bool

-- `reward_by_ids` and `deduct_by_ids` of the staking pallet.
pub record Staking (W : Type 0) : Type 0 where
  pub reward_by_ids : List (ℕ × ℕ) → W → W
  pub deduct_by_ids : List (ℕ × ℕ) → W → W

-- The pallet's storage, the block number, the staking pallet's state, and the events, newest first.
pub record Cmix (W : Type 0) : Type 0 where
  pub cmix_hashes : SoftwareHashes
  pub admin_permission : ℕ
  pub scheduling_account : Option ℕ
  pub cmix_address_space : ℕ
  pub next_cmix_variables : Option Variables
  pub cmix_variables : Variables
  pub block_number : ℕ
  pub staking : W
  pub events : List Event

-- The genesis configuration.
pub record GenesisConfig : Type 0 where
  pub cmix_hashes : SoftwareHashes
  pub admin_permission : ℕ
  pub cmix_address_space : ℕ
  pub cmix_variables : Variables
  pub scheduling_account : Option ℕ

-- `if let Some(sched) = ... { who == sched } else { false }`
abbrev pub is_account : Option ℕ → ℕ → Bool
is_account none who = false
is_account (some sched) who = who == sched

module _ {W : Type 0} where
  abbrev pub deposit_event : Event → DispatchResult (Cmix W)
  deposit_event e s = (ok tt, record s { events = e ∷ s.events })

  abbrev pub is_scheduling : Cmix W → ℕ → Bool
  is_scheduling s who = is_account s.scheduling_account who

  -- `ensure_admin_allowed_cmix_hashes`
  abbrev pub ensure_admin_allowed : DispatchResult (Cmix W)
  ensure_admin_allowed s =
      ensure (leb s.block_number s.admin_permission) (xx_cmix admin_permission_expired) s

  -- The genesis build; an account that is not configured is not stored.
  unfoldable pub genesis_build : GenesisConfig → W → Cmix W
  genesis_build g w = record {
    cmix_hashes = g.cmix_hashes;
    admin_permission = g.admin_permission;
    scheduling_account = g.scheduling_account;
    cmix_address_space = g.cmix_address_space;
    next_cmix_variables = none;
    cmix_variables = g.cmix_variables;
    block_number = 0;
    staking = w;
    events = [];
  }

  -- `CmixHandler::get_block_points`
  unfoldable pub get_block_points : Cmix W → ℕ
  get_block_points s = block_points s.cmix_variables

  -- `if let Some(next) = NextCmixVariables::take()`
  abbrev pub take_next : Option Variables → Cmix W → Cmix W
  take_next none s = s
  take_next (some next) s = record s {
    next_cmix_variables = none;
    cmix_variables = next;
    events = cmix_variables_updated ∷ s.events;
  }

  -- `CmixHandler::end_era`
  unfoldable pub end_era : Cmix W → Cmix W
  end_era s = take_next s.next_cmix_variables s

module _ (config : Config) {W : Type 0} (staking : Staking W) where
  abbrev pub ensure_admin : Origin → DispatchResult (Cmix W)
  ensure_admin = origin_or_root config.admin_origin

  abbrev pub ensure_cmix_variables : Origin → DispatchResult (Cmix W)
  ensure_cmix_variables = origin_or_root config.cmix_variables_origin

  unfoldable pub set_cmix_hashes : Origin → SoftwareHashes → DispatchResult (Cmix W)
  set_cmix_hashes origin hashes = do
    ensure_admin origin
    ensure_admin_allowed
    modify (λ s. record s { cmix_hashes = hashes })
    deposit_event cmix_hashes_updated

  unfoldable pub set_scheduling_account : Origin → ℕ → DispatchResult (Cmix W)
  set_scheduling_account origin who = do
    ensure_admin origin
    modify (λ s. record s { scheduling_account = some who })
    deposit_event scheduling_account_updated

  unfoldable pub set_next_cmix_variables : Origin → Variables → DispatchResult (Cmix W)
  set_next_cmix_variables origin variables = do
    ensure_cmix_variables origin
    modify (λ s. record s { next_cmix_variables = some variables })

  unfoldable pub submit_cmix_points : Origin → List (ℕ × ℕ) → DispatchResult (Cmix W)
  submit_cmix_points origin data_ s =
      (do
        who ← ensure_signed origin
        ensure (is_scheduling s who) (xx_cmix must_be_scheduling)
        modify (λ s. record s { staking = staking.reward_by_ids data_ s.staking })
        deposit_event cmix_points_added)
        s

  unfoldable pub submit_cmix_deductions : Origin → List (ℕ × ℕ) → DispatchResult (Cmix W)
  submit_cmix_deductions origin data_ s =
      (do
        who ← ensure_signed origin
        ensure (is_scheduling s who) (xx_cmix must_be_scheduling)
        modify (λ s. record s { staking = staking.deduct_by_ids data_ s.staking })
        deposit_event cmix_points_deducted)
        s

  unfoldable pub set_cmix_address_space : Origin → ℕ → DispatchResult (Cmix W)
  set_cmix_address_space origin size s =
      (do
        who ← ensure_signed origin
        ensure (is_scheduling s who) (xx_cmix must_be_scheduling)
        modify (λ s. record s { cmix_address_space = size })
        deposit_event cmix_address_space_updated)
        s

  unfoldable pub set_admin_permission : Origin → ℕ → DispatchResult (Cmix W)
  set_admin_permission origin permission = do
    ensure_root origin
    modify (λ s. record s { admin_permission = permission })
    deposit_event (admin_permission_updated permission)
