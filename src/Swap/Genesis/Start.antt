-- ===== src/Swap/Genesis/Start.antt =====
-- The state that the genesis build of swap/src/lib.rs starts the chain in.
use xxchain.Common.{
  ℕ, ◌%◌, ◌<◌, ◌≡◌, refl, ap, ◌∙◌, false, Option, none, some, List, [], ◌∷◌, arith, if◌then◌else◌,
  length, contains, IsDistinct, u32_mod, nat_eq, list_eq,
}
use xxchain.Frame.{Result, err, ok, ◌>>◌, try_for_each, bind-ok}
use xxchain.Frame.StorageMap.{get, get-empty}
use xxchain.Frame.Currency.{Currency}
use xxchain.Chainbridge.Storage.{
  Config, Bridge, initial, Event, relayer_threshold_changed, is_relayer,
}
use xxchain.Chainbridge.Admin.{
  whitelist, register_relayer, register_resource, set_relayer_threshold,
}
use xxchain.Swap.Pallet.{Swap}
use xxchain.Swap.Genesis.{initialize, GenesisConfig, genesis_build, put_destination}
use mathlib.Core.Path.{subst, sym}
use xxchain.Swap.Genesis.Lists.{method_of, whitelist_all, register_all, map_all}

-- The storage before the build.
abbrev pub before : {Bank : Type 0} → Bank → Swap Bank
before bank = record {
  bridge = initial;
  bank = bank;
  swap_fee = 0;
  fee_destination = none;
  events = [];
}

set_relayer_threshold-ok :
    (n : ℕ) (b : Bridge)
    → 0 < n
    → set_relayer_threshold n b
      ≡ (ok tt, record b { relayer_threshold = n; events = relayer_threshold_changed n ∷ b.events })
unfolding set_relayer_threshold
set_relayer_threshold-ok n b h = ground arith

-- The bridge as a genesis configuration asks for it.
pub record IsSetUp (g : GenesisConfig) (b : Bridge) : Type 0 where
  pub chains : (c : ℕ) → get b.chain_nonces c ≡ (if contains g.chains c then some 0 else none)
  pub members : (w : ℕ) → is_relayer b w ≡ contains g.relayers w
  pub counted : b.relayer_count ≡ length g.relayers % u32_mod
  pub methods : (id : List ℕ) → get b.resources id ≡ method_of g.resources id none
  pub threshold : b.relayer_threshold ≡ g.threshold

record SetsUp (config : Config) (g : GenesisConfig) : Type 0 where
  final : Bridge
  done : initialize config g.chains g.relayers g.resources g.threshold initial ≡ (ok tt, final)
  set_up : IsSetUp g final

not_member : (w : ℕ) (b : Bridge) → get b.relayers w ≡ none → is_relayer b w ≡ false
unfolding is_relayer
not_member w b e = ground arith

set_threshold-members :
    (w : ℕ) (b : Bridge) (n : ℕ) (es : List Event)
    → is_relayer (record b { relayer_threshold = n; events = es }) w ≡ is_relayer b w
unfolding is_relayer
set_threshold-members w b n es = refl

initialize-SetsUp :
    (config : Config) (g : GenesisConfig)
    → IsDistinct g.chains
    → contains g.chains config.chain_id ≡ false
    → IsDistinct g.relayers
    → 0 < g.threshold
    → SetsUp config g
unfolding initialize
initialize-SetsUp config g distinct foreign single positive =
    let a =
      whitelist_all config g.chains initial distinct
        (λ c listed. (λ e. cc (ap (contains g.chains) e), get-empty c)) in
    let b =
      register_all g.relayers a.final single
        (λ w listed. not_member w a.final (rw a.relayers (get-empty w)))
        (rw a.relayer_count (omega arith)) in
    let c = map_all g.resources b.final in
    let last = set_relayer_threshold-ok g.threshold c.final positive in
    record {
      final = record c.final {
        relayer_threshold = g.threshold;
        events = relayer_threshold_changed g.threshold ∷ c.final.events;
      };
      done =
          bind-ok (try_for_each (whitelist config) g.chains)
            (λ _. do
              try_for_each register_relayer g.relayers
              try_for_each (λ (r : List ℕ × List ℕ). register_resource r.0 r.1) g.resources
              set_relayer_threshold g.threshold)
            a.done
          ∙ bind-ok (try_for_each register_relayer g.relayers)
              (λ _. do
                try_for_each (λ (r : List ℕ × List ℕ). register_resource r.0 r.1) g.resources
                set_relayer_threshold g.threshold)
              b.done
          ∙ bind-ok (try_for_each (λ (r : List ℕ × List ℕ). register_resource r.0 r.1) g.resources)
              (λ _. set_relayer_threshold g.threshold) c.done
          ∙ last;
      set_up = record {
        chains = λ x. ap (λ m. get m x) (c.chains ∙ b.chains) ∙ a.chains x ∙ rw get-empty refl;
        members = λ w.
            set_threshold-members w c.final _ _
            ∙ c.members w
            ∙ b.members w
            ∙ rw (not_member w a.final (rw a.relayers (get-empty w))) (ground arith);
        counted = c.relayer_count ∙ b.counted ∙ rw a.relayer_count (omega arith);
        methods = λ id.
            c.methods id
            ∙ ap (λ m. method_of g.resources id (get m id)) (b.resources ∙ a.resources)
            ∙ ap (method_of g.resources id) (get-empty id);
        threshold = refl;
      };
    }

module _ (config : Config) {Bank : Type 0} (currency : Currency Bank) where
  -- What the build has done to the whole state.
  pub record Starts (g : GenesisConfig) (bank : Bank) : Type 0 where
    pub final : Swap Bank
    pub built : genesis_build config currency g (before bank) ≡ some final
    pub set_up : IsSetUp g final.bridge
    pub funded : final.bank ≡ currency.make_free_balance_be config.account_id g.balance bank
    pub fee : final.swap_fee ≡ g.swap_fee
    pub destination : final.fee_destination ≡ g.fee_destination

  -- The state before the fee destination is put.
  abbrev built_from : GenesisConfig → Bank → Bridge → Swap Bank
  built_from g bank b = record {
    bridge = b;
    bank = currency.make_free_balance_be config.account_id g.balance bank;
    swap_fee = g.swap_fee;
    fee_destination = none;
    events = [];
  }

  -- Putting the fee destination sets it and changes nothing else.
  put_destination_lem :
      (d : Option ℕ) (s : Swap Bank)
      → s.fee_destination ≡ none
      → let t = put_destination config currency d s in
        (t.bridge ≡ s.bridge)
        × (t.bank ≡ s.bank)
        × (t.swap_fee ≡ s.swap_fee)
        × (t.fee_destination ≡ d)
  put_destination_lem none s h = (refl, refl, refl, h)
  put_destination_lem (some d) s h = (refl, refl, refl, refl)

  build_on :
      (g : GenesisConfig) (bank : Bank) (b : Bridge)
      → initialize config g.chains g.relayers g.resources g.threshold initial ≡ (ok tt, b)
      → genesis_build config currency g (before bank)
        ≡ some (put_destination config currency g.fee_destination (built_from g bank b))
  unfolding genesis_build
  build_on g bank b done =
      ap
        (λ (x : Result (Unit {0}) × Bridge). elim x.0 [
          | err e ↦ none
          | ok _ ↦ some (put_destination config currency g.fee_destination (built_from g bank x.1))
        ])
        done

  -- With different chains that are not the chain itself, different relayers and a positive
  -- threshold, the genesis build does not panic: every configured chain starts at nonce 0 and no
  -- other is whitelisted, exactly the configured relayers are relayers and are counted on 32 bits,
  -- every resource has the method that is configured last for it, the threshold, the balance of
  -- the bridge's account, the fee and the fee destination are set.
  pub genesis_build-Starts :
      (g : GenesisConfig) (bank : Bank)
      → IsDistinct g.chains
      → contains g.chains config.chain_id ≡ false
      → IsDistinct g.relayers
      → 0 < g.threshold
      → Starts g bank
  genesis_build-Starts g bank distinct foreign single positive =
      let inner = initialize-SetsUp config g distinct foreign single positive in
      let (bridge, funded, fee, destination) =
        put_destination_lem g.fee_destination (built_from g bank inner.final) refl in
      record {
        final = put_destination config currency g.fee_destination (built_from g bank inner.final);
        built = build_on g bank inner.final inner.done;
        set_up = subst (IsSetUp g) (sym bridge) inner.set_up;
        funded = funded;
        fee = fee;
        destination = destination;
      }
