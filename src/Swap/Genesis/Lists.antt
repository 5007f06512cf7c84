-- ===== src/Swap/Genesis/Lists.antt =====
-- What the loops of `initialize` in swap/src/lib.rs leave in the bridge pallet.
use xxchain.Common.{
  ℕ, ◌+◌, ◌%◌, ◌<◌, ◌≡◌, ◌≢◌, refl, ap, ◌∙◌, true, false, ◌||◌, Option, none, some, List, [], ◌∷◌,
  arith, ◌==◌, if◌then◌else◌, length, contains, IsDistinct, u32_mod, wrapping_add, nat_eq, list_eq,
}
use xxchain.Frame.{ok, try_for_each, bind-ok}
use xxchain.Frame.StorageMap.{get, insert, get-insert}
use xxchain.Chainbridge.Storage.{
  Config, Bridge, Event, chain_whitelisted, relayer_added, is_relayer,
}
use xxchain.Chainbridge.Admin.{whitelist, register_relayer, register_resource}

-- The method that is registered last for a resource, or the one before.
abbrev pub method_of : List (List ℕ × List ℕ) → List ℕ → Option (List ℕ) → Option (List ℕ)
method_of [] id before = before
method_of ((r, method) ∷ rs) id before = method_of rs id (if r == id then some method else before)

module _ (config : Config) where
  -- What `whitelist` on every chain of a list leaves.
  pub record Whitelists (cs : List ℕ) (b : Bridge) : Type 0 where
    pub final : Bridge
    pub done : try_for_each (whitelist config) cs b ≡ (ok tt, final)
    pub chains :
        (c : ℕ)
        → get final.chain_nonces c ≡ (if contains cs c then some 0 else get b.chain_nonces c)
    pub relayers : final.relayers ≡ b.relayers
    pub relayer_count : final.relayer_count ≡ b.relayer_count
    pub resources : final.resources ≡ b.resources

  whitelist-ok :
      (c : ℕ) (b : Bridge)
      → c ≢ config.chain_id
      → get b.chain_nonces c ≡ none
      → whitelist config c b ≡ (
        ok tt,
        record b {
          chain_nonces = insert b.chain_nonces c 0;
          events = chain_whitelisted c ∷ b.events;
        },
      )
  unfolding whitelist
  whitelist-ok c b other new = ground arith

  pub whitelist_all :
      (cs : List ℕ) (b : Bridge)
      → IsDistinct cs
      → ((c : ℕ) → contains cs c ≡ true → (c ≢ config.chain_id) × (get b.chain_nonces c ≡ none))
      → Whitelists cs b
  unfolding contains
  whitelist_all [] b d h = record {
    final = b;
    done = refl;
    chains = λ c. refl;
    relayers = refl;
    relayer_count = refl;
    resources = refl;
  }
  whitelist_all (c ∷ cs) b d h =
      let (other, new) = h c (ground arith) in
      let next : Bridge = record b {
        chain_nonces = insert b.chain_nonces c 0;
        events = chain_whitelisted c ∷ b.events;
      } in
      let rest = whitelist_all cs next d.1 (λ x listed.
        ((h x (ground arith)).0, rw get-insert (ground (arith, (h x (ground arith)).1)))) in
      record {
        final = rest.final;
        done =
            bind-ok (whitelist config c) (λ _. try_for_each (whitelist config) cs)
              (whitelist-ok c b other new)
            ∙ rest.done;
        chains = λ x. rest.chains x ∙ rw get-insert (ground (arith, d.0));
        relayers = rest.relayers;
        relayer_count = rest.relayer_count;
        resources = rest.resources;
      }

-- What `register_relayer` on every account of a list leaves.
pub record Joins (ws : List ℕ) (b : Bridge) : Type 0 where
  pub final : Bridge
  pub done : try_for_each register_relayer ws b ≡ (ok tt, final)
  pub members : (w : ℕ) → is_relayer final w ≡ (contains ws w || is_relayer b w)
  pub counted : final.relayer_count ≡ (b.relayer_count + length ws) % u32_mod
  pub chains : final.chain_nonces ≡ b.chain_nonces
  pub resources : final.resources ≡ b.resources

register_relayer-ok :
    (w : ℕ) (b : Bridge)
    → is_relayer b w ≡ false
    → register_relayer w b ≡ (
      ok tt,
      record b {
        relayers = insert b.relayers w true;
        relayer_count = wrapping_add u32_mod b.relayer_count 1;
        events = relayer_added w ∷ b.events;
      },
    )
unfolding register_relayer
register_relayer-ok w b new = ground arith

is_relayer-insert :
    (b : Bridge) (w x count : ℕ) (es : List Event)
    → is_relayer
        (record b { relayers = insert b.relayers w true; relayer_count = count; events = es })
        x
      ≡ (w == x || is_relayer b x)
unfolding is_relayer
is_relayer-insert b w x count es = ground (arith, get-insert b.relayers w x true)

pub register_all :
    (ws : List ℕ) (b : Bridge)
    → IsDistinct ws
    → ((w : ℕ) → contains ws w ≡ true → is_relayer b w ≡ false)
    → b.relayer_count < u32_mod
    → Joins ws b
unfolding contains
register_all [] b d h small = record {
  final = b;
  done = refl;
  members = λ w. refl;
  counted = omega arith;
  chains = refl;
  resources = refl;
}
register_all (w ∷ ws) b d h small =
    let new = h w (ground arith) in
    let next : Bridge = record b {
      relayers = insert b.relayers w true;
      relayer_count = wrapping_add u32_mod b.relayer_count 1;
      events = relayer_added w ∷ b.events;
    } in
    let rest =
      register_all ws next d.1
        (λ x listed. is_relayer-insert b w x _ _ ∙ ground (arith, h x (ground arith), d.0))
        (omega arith) in
    record {
      final = rest.final;
      done =
          bind-ok (register_relayer w) (λ _. try_for_each register_relayer ws)
            (register_relayer-ok w b new)
          ∙ rest.done;
      members = λ x. rest.members x ∙ rw (is_relayer-insert b w x _ _) (ground (arith, d.0));
      counted = omega (arith, rest.counted);
      chains = rest.chains;
      resources = rest.resources;
    }

-- What `register_resource` on every pair of a list leaves.
pub record Maps (rs : List (List ℕ × List ℕ)) (b : Bridge) : Type 0 where
  pub final : Bridge
  pub done : try_for_each (λ (r : List ℕ × List ℕ). register_resource r.0 r.1) rs b ≡ (ok tt, final)
  pub methods : (id : List ℕ) → get final.resources id ≡ method_of rs id (get b.resources id)
  pub chains : final.chain_nonces ≡ b.chain_nonces
  pub members : (w : ℕ) → is_relayer final w ≡ is_relayer b w
  pub relayer_count : final.relayer_count ≡ b.relayer_count

pub map_all : (rs : List (List ℕ × List ℕ)) (b : Bridge) → Maps rs b
unfolding register_resource is_relayer
map_all [] b = record {
  final = b;
  done = refl;
  methods = λ id. refl;
  chains = refl;
  members = λ w. refl;
  relayer_count = refl;
}
map_all ((r, method) ∷ rs) b =
    let rest = map_all rs (record b { resources = insert b.resources r method }) in
    record {
      final = rest.final;
      done = rest.done;
      methods = λ id. rest.methods id ∙ ap (method_of rs id) (get-insert b.resources r id method);
      chains = rest.chains;
      members = rest.members;
      relayer_count = rest.relayer_count;
    }
