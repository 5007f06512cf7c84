-- ===== src/Betanet/Enact.antt =====
-- The enactment of the program in xx-betanet-rewards/src/lib.rs, on the storage of the claims pallet,
-- whose other state is that of this one.
use xxchain.Common.{
  ℕ, ◌-◌, ◌/◌, Option, none, some, List, [], ◌∷◌, ◌++◌, ◌==◌, nat_eq, list_eq, if◌then◌else◌,
  unwrap_or, u128_mod, wrapping_add, wrapping_mul,
}
use xxchain.Frame.{DispatchResult}
use xxchain.Frame.Perbill.{Perbill}
use xxchain.Frame.StorageMap.{StorageMap, get, insert, empty}
use xxchain.Frame.StorageMap.Drain.{for_each}
use xxchain.Claims.Storage.{Claims, EthereumAddress, Schedule}
use xxchain.Betanet.Options.{
  RewardOption, no_vesting, default_option, vesting_period, principal_lock, rewards, extra_rewards,
  UserInfo,
}
use xxchain.Betanet.Pallet.{Betanet, program_enacted}

-- What the pallet calls of the currency, of the vesting pallet and of the handler of rewards. An
-- imbalance is its amount.
pub record Externals (Bank : Type 0) : Type 0 where
  -- the positive imbalance, and the balances
  pub deposit_creating : ℕ → ℕ → Bank → ℕ × Bank
  -- `Currency::pair`: a debit and a credit of the amount
  pub pair : ℕ → Bank → ℕ × ℕ × Bank
  pub drop_negative : ℕ → Bank → Bank
  -- `T::Reward::on_unbalanced`
  pub on_unbalanced : ℕ → Bank → Bank
  pub vesting_balance : Bank → ℕ → Option ℕ
  pub add_vesting_schedule : ℕ → ℕ → ℕ → ℕ → DispatchResult Bank

-- `<Vesting<T>>::append`
abbrev pub append :
    StorageMap EthereumAddress (List Schedule)
    → EthereumAddress
    → Schedule
    → StorageMap EthereumAddress (List Schedule)
append m address schedule = insert m address (unwrap_or (get m address) [] ++ (schedule ∷ []))

module _ (p : Perbill) where
  -- The reward for an option.
  unfoldable pub reward_amount : UserInfo → ℕ
  reward_amount info =
      if extra_rewards p info.option == 0
      then p.times (rewards p info.option) info.reward
      else wrapping_add u128_mod (p.times (rewards p info.option) info.reward)
          (p.times (extra_rewards p info.option) info.reward)

module _ (p : Perbill) (enactment_block : ℕ) where
  -- How much of a schedule is locked at the enactment block.
  unfoldable pub locked_at : Schedule → ℕ
  locked_at vs = vs.0 - wrapping_mul u128_mod vs.1 (enactment_block - vs.2)

  -- `schedules.iter().for_each(...)`
  unfoldable pub subtract_locked : ℕ → List Schedule → ℕ
  subtract_locked lock [] = lock
  subtract_locked lock (vs ∷ schedules) = subtract_locked (lock - locked_at vs) schedules

  unfoldable pub compute_claims_vesting_lock :
      StorageMap EthereumAddress (List Schedule) → EthereumAddress → ℕ → ℕ
  compute_claims_vesting_lock vesting who desired = elim (get vesting who) [
    | none ↦ desired
    | some schedules ↦ subtract_locked desired schedules
  ]

  module _ {Bank : Type 0} (externals : Externals Bank) where
    -- `if !lock.is_zero()`
    unfoldable pub add_lock : ℕ → RewardOption → ℕ → Bank → Bank
    add_lock account option lock b =
        if lock == 0
        then b
        else (externals.add_vesting_schedule account lock (lock / vesting_period option)
            enactment_block b).1

    -- The desired lock less what the account has locked.
    abbrev pub remaining : ℕ → Option ℕ → ℕ
    remaining desired none = desired
    remaining desired (some l) = desired - l

    unfoldable pub lock_account : ℕ → UserInfo → ℕ → RewardOption → Bank → Bank
    lock_account account info amount no_vesting b = b
    lock_account account info amount option b =
        let desired_lock =
          wrapping_add u128_mod (p.times (principal_lock p option) info.principal) amount in
        add_lock account option (remaining desired_lock (externals.vesting_balance b account)) b

    unfoldable pub process_account : ℕ → UserInfo → Bank → Bank
    process_account account info b =
        let amount = reward_amount p info in
        let (imbalance, b') = externals.deposit_creating account amount b in
        lock_account account info amount info.option (externals.on_unbalanced imbalance b')

    -- `claims::Claims::mutate`
    abbrev pub add_reward :
        StorageMap EthereumAddress ℕ → EthereumAddress → ℕ → StorageMap EthereumAddress ℕ
    add_reward m address reward = elim (get m address) [
      | none ↦ m
      | some claim ↦ insert m address (wrapping_add u128_mod claim reward)
    ]

    -- Section 1 of the function: the reward goes into the claim.
    unfoldable pub credit_claim :
        EthereumAddress → ℕ → Claims (Betanet Bank) → Claims (Betanet Bank)
    credit_claim address reward s =
        let (debit, credit, b) = externals.pair reward s.world.bank in
        record s {
          claims = add_reward s.claims address reward;
          total = wrapping_add u128_mod s.total reward;
          world = record s.world {
            bank = externals.drop_negative credit (externals.on_unbalanced debit b);
          };
        }

    -- Section 2: a schedule for what is not locked yet.
    unfoldable pub lock_claim : EthereumAddress → ℕ → Claims (Betanet Bank) → Claims (Betanet Bank)
    lock_claim address reward s =
        let principal = unwrap_or (get s.claims address) 0 in
        let desired_lock =
          wrapping_add u128_mod (p.times (principal_lock p default_option) principal) reward in
        let lock = compute_claims_vesting_lock s.vesting address desired_lock in
        if lock == 0 then s else record s {
          vesting =
              append s.vesting address
                (lock, lock / vesting_period default_option, enactment_block);
        }

    unfoldable pub process_leftover_claim :
        EthereumAddress → ℕ → Claims (Betanet Bank) → Claims (Betanet Bank)
    process_leftover_claim address reward s =
        lock_claim address reward (credit_claim address reward s)

    unfoldable pub process_rewards : Claims (Betanet Bank) → Claims (Betanet Bank)
    process_rewards s = record s {
      world = record s.world {
        accounts = empty;
        bank = for_each process_account s.world.accounts s.world.bank;
      };
    }

    unfoldable pub process_claims : Claims (Betanet Bank) → Claims (Betanet Bank)
    process_claims s = for_each process_leftover_claim s.rewards (record s { rewards = empty })

    unfoldable pub enact_program : Claims (Betanet Bank) → Claims (Betanet Bank)
    enact_program s = process_claims (process_rewards s)

    -- With the event.
    abbrev pub enacted : Claims (Betanet Bank) → Claims (Betanet Bank)
    enacted s =
        let t = enact_program s in
        record t { world = record t.world { events = program_enacted ∷ t.world.events } }

    unfoldable pub on_initialize : ℕ → Claims (Betanet Bank) → Claims (Betanet Bank)
    on_initialize n s =
        if n == enactment_block then if s.world.approved then enacted s else s else s
