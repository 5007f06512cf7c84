-- ===== src/Swap/Genesis.antt =====
-- `initialize` and the genesis build of swap/src/lib.rs.
pub mod Lists
pub mod Start
use xxchain.Common.{
  ℕ, zero, suc, ◌+◌, ◌%◌, ◌≤◌, ◌<◌, ◌≡◌, ◌≢◌, refl, ap, ◌∙◌, Bool, true, false, ◌||◌, not, Option,
  none, some, List, [], ◌∷◌, arith, inl, inr, Bool-cases, Option-cases, ◌==◌, if◌then◌else◌, length,
  contains, IsDistinct, u32_mod, wrapping_add, nat_eq, list_eq, eq_of_beq,
}
use xxchain.Frame.{Result, ok, err, DispatchResult, ◌>>=◌, ◌>>◌, try_for_each, bind-ok}
use xxchain.Frame.StorageMap.{get, insert, get-insert, get-insert_self, get-empty}
use xxchain.Frame.Currency.{Currency}
use xxchain.Chainbridge.Storage.{
  Config, Bridge, initial, Event, chain_whitelisted, relayer_added, is_relayer, is_whitelisted,
}
use xxchain.Chainbridge.Admin.{
  whitelist, register_relayer, register_resource, set_relayer_threshold,
}
use xxchain.Swap.Pallet.{Swap, on_bridge}

-- `Module::initialize`.
unfoldable pub initialize :
    Config → List ℕ → List ℕ → List (List ℕ × List ℕ) → ℕ → DispatchResult Bridge
initialize config chains relayers resources threshold = do
  try_for_each (whitelist config) chains
  try_for_each register_relayer relayers
  try_for_each (λ (r : List ℕ × List ℕ). register_resource r.0 r.1) resources
  set_relayer_threshold threshold

-- The fee of the storage, and the `add_extra_genesis` fields.
pub record GenesisConfig : Type 0 where
  pub swap_fee : ℕ
  pub chains : List ℕ
  pub relayers : List ℕ
  pub resources : List (List ℕ × List ℕ)
  pub threshold : ℕ
  pub balance : ℕ
  pub fee_destination : Option ℕ

module _ (config : Config) {Bank : Type 0} (currency : Currency Bank) where
  -- `if let Some(dest) = &config.fee_destination`
  abbrev pub put_destination : Option ℕ → Swap Bank → Swap Bank
  put_destination none s = s
  put_destination (some dest) s = record s { fee_destination = some dest }

  -- The genesis build, with the configured fee written first; `none` is the panic of `expect`.
  unfoldable pub genesis_build : GenesisConfig → Swap Bank → Option (Swap Bank)
  genesis_build g s =
      let (r, s1) =
        on_bridge (initialize config g.chains g.relayers g.resources g.threshold)
          (record s { swap_fee = g.swap_fee }) in
      elim r [
        | err e ↦ none
        | ok _ ↦ some (
            put_destination g.fee_destination (record s1 {
              bank = currency.make_free_balance_be config.account_id g.balance s1.bank;
            }))
      ]
