-- ===== src/Cmix/Era.antt =====
-- When the cMix variables of xx-cmix/src/lib.rs change.
use xxchain.Common.{
  ◌≡◌, refl, ap, ◌∙◌, ◌||◌, Option, none, some, List, [], ◌∷◌, arith, if◌then◌else◌,
}
use xxchain.Frame.{Origin, is_root}
use xxchain.Cmix.Variables.{Variables, block_points}
use xxchain.Cmix.Pallet.{
  Config, Staking, Cmix, get_block_points, end_era, take_next, is_scheduling, ensure_admin_allowed,
  deposit_event,
}
use xxchain.Cmix.Pallet
use xxchain.Cmix.Authority.{
  Call, set_cmix_hashes, set_scheduling_account, set_next_cmix_variables, submit_cmix_points,
  submit_cmix_deductions, set_cmix_address_space, set_admin_permission, run,
}

module _ (config : Config) {W : Type 0} (staking : Staking W) where
  -- The calls of an era, in their order, whether they succeed or fail.
  pub run_all : List (Origin × Call) → Cmix W → Cmix W
  run_all [] s = s
  run_all ((o, c) ∷ cs) s = run_all cs (run config staking o c s).1

  -- The variables that a call proposes, or those that were proposed before.
  abbrev pub proposed : Origin → Call → Option Variables → Option Variables
  proposed o (set_next_cmix_variables v) old =
      if config.cmix_variables_origin o || is_root o then some v else old
  proposed o _ old = old

  -- The variables that the calls propose last.
  pub last_proposed : List (Origin × Call) → Option Variables → Option Variables
  last_proposed [] old = old
  last_proposed ((o, c) ∷ cs) old = last_proposed cs (proposed o c old)

  abbrev pub or_current : Option Variables → Variables → Variables
  or_current none v = v
  or_current (some w) v = w

  -- The current variables stay, and the next are as given.
  abbrev Proposes : Cmix W → Cmix W → Option Variables → Type 0
  Proposes s t next = (t.cmix_variables ≡ s.cmix_variables) × (t.next_cmix_variables ≡ next)

  run-Proposes :
      (s : Cmix W) (o : Origin) (c : Call)
      → Proposes s (run config staking o c s).1 (proposed o c s.next_cmix_variables)
  unfolding run Pallet.set_cmix_hashes Pallet.set_scheduling_account Pallet.set_next_cmix_variables
      Pallet.submit_cmix_points Pallet.submit_cmix_deductions Pallet.set_cmix_address_space
      Pallet.set_admin_permission
  run-Proposes s Origin.root (set_cmix_hashes hashes) = ground arith
  run-Proposes s o (set_cmix_hashes hashes) = ground arith
  run-Proposes s Origin.root (set_scheduling_account who) = ground arith
  run-Proposes s o (set_scheduling_account who) = ground arith
  run-Proposes s Origin.root (set_next_cmix_variables v) = ground arith
  run-Proposes s o (set_next_cmix_variables v) = ground arith
  run-Proposes s Origin.root (set_admin_permission n) = (refl, refl)
  run-Proposes s o (set_admin_permission n) = (refl, refl)
  run-Proposes s (Origin.signed who) (submit_cmix_points points) = ground arith
  run-Proposes s o (submit_cmix_points points) = (refl, refl)
  run-Proposes s (Origin.signed who) (submit_cmix_deductions points) = ground arith
  run-Proposes s o (submit_cmix_deductions points) = (refl, refl)
  run-Proposes s (Origin.signed who) (set_cmix_address_space size) = ground arith
  run-Proposes s o (set_cmix_address_space size) = (refl, refl)

  all-Proposes :
      (cs : List (Origin × Call)) (s : Cmix W)
      → Proposes s (run_all cs s) (last_proposed cs s.next_cmix_variables)
  unfolding run_all last_proposed
  all-Proposes [] s = (refl, refl)
  all-Proposes ((o, c) ∷ cs) s =
      let (current, next) = run-Proposes s o c in
      let rest = all-Proposes cs (run config staking o c s).1 in
      (rest.0 ∙ current, rest.1 ∙ ap (last_proposed cs) next)

  take_next_lem :
      (o : Option Variables) (s : Cmix W)
      → s.next_cmix_variables ≡ o
      → ((take_next o s).next_cmix_variables ≡ none)
        × ((take_next o s).cmix_variables ≡ or_current o s.cmix_variables)
  take_next_lem none s h = (h, refl)
  take_next_lem (some v) s h = (refl, refl)

  -- Whatever calls are made during an era, by whomever, the current variables, and with them the
  -- points for a block, stay until the era ends; the end of the era makes current the variables
  -- that a permitted origin proposed last, in this era or pending from before it, or keeps the
  -- current ones where there are none, and leaves no next variables.
  pub end_era_lem :
      (cs : List (Origin × Call)) (s : Cmix W)
      → let t = run_all cs s in
        (t.cmix_variables ≡ s.cmix_variables)
        × (get_block_points t ≡ get_block_points s)
        × ((end_era t).cmix_variables
            ≡ or_current (last_proposed cs s.next_cmix_variables) s.cmix_variables)
        × ((end_era t).next_cmix_variables ≡ none)
  unfolding end_era get_block_points
  end_era_lem cs s =
      let (current, next) = all-Proposes cs s in
      let t = run_all cs s in
      let taken = take_next_lem t.next_cmix_variables t refl in
      (
        current,
        ap block_points current,
        taken.1
            ∙ ap (or_current t.next_cmix_variables) current
            ∙ ap (λ (o : Option Variables). or_current o s.cmix_variables) next,
        taken.0,
      )
