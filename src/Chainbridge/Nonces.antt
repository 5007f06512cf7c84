-- ===== src/Chainbridge/Nonces.antt =====
-- The deposit nonces of chainbridge/src/lib.rs against the transfers that were announced.
use xxchain.Common.{
  ℕ, zero, suc, ◌%◌, ◌<◌, ◌≡◌, refl, ap, ◌∙◌, none, some, List, [], ◌∷◌, arith, inl, inr,
  Bool-cases, ◌==◌, if◌then◌else◌, length, u64_mod, wrapping_add, nat_eq, eq_of_beq,
}
use xxchain.Frame.{Origin}
use xxchain.Frame.StorageMap.{get, insert, get-insert, get-empty}
use xxchain.Chainbridge.Storage.{
  Config, Bridge, initial, Event, chain_whitelisted, Runtime, Dispatch,
}
use xxchain.Chainbridge.Effects.{
  Effect, threshold, resource, whitelist, join, leave, send, vote, count, report, next_block,
  sent_to, Effects_induction,
}
use xxchain.Chainbridge.Effects.Acts.{Acts}
use xxchain.Chainbridge.Call.{History, History-Effects}

-- The nonces of the transfers to a chain, newest first.
unfoldable pub nonces_to : ℕ → List Event → List ℕ
nonces_to d [] = []
nonces_to d (e ∷ es) =
    let rest = nonces_to d es in
    elim (sent_to e) [ none ↦ rest | some (chain, n) ↦ if chain == d then n ∷ rest else rest ]

-- k, …, 2, 1 on 64 bits.
numbering : ℕ → List ℕ
numbering zero = []
numbering (suc k) = (suc k % u64_mod) ∷ numbering k

-- The transfers to every chain are numbered in order, none have gone to a chain without a nonce,
-- and a chain's nonce is the number of its transfers on 64 bits.
abbrev IsNumbered : Bridge → Type 0
IsNumbered b =
    (d : ℕ)
    → let sent = nonces_to d b.events in
      (sent ≡ numbering (length sent))
      × (get b.chain_nonces d ≡ none → sent ≡ [])
      × ((n : ℕ) → get b.chain_nonces d ≡ some n → n ≡ length sent % u64_mod)

nonces_to-unsent :
    (d : ℕ) (e : Event) (es : List Event) → sent_to e ≡ none → nonces_to d (e ∷ es) ≡ nonces_to d es
unfolding nonces_to
nonces_to-unsent d e es h = ground arith

nonces_to-sent :
    (d chain n : ℕ) (e : Event) (es : List Event)
    → sent_to e ≡ some (chain, n)
    → nonces_to d (e ∷ es) ≡ (if chain == d then n ∷ nonces_to d es else nonces_to d es)
unfolding nonces_to
nonces_to-sent d chain n e es h = ground arith

-- An event that is no transfer leaves the numbering.
unsent-IsNumbered :
    (b : Bridge) (e : Event)
    → sent_to e ≡ none
    → IsNumbered b
    → IsNumbered (record b { events = e ∷ b.events })
unsent-IsNumbered b e unsent h d = rw (nonces_to-unsent d e b.events unsent) (h d)

-- A transfer to `dest` takes the next number, and leaves the other chains alone.
send-IsNumbered :
    (b : Bridge) (dest n : ℕ) (e : Event)
    → get b.chain_nonces dest ≡ some n
    → sent_to e ≡ some (dest, wrapping_add u64_mod n 1)
    → IsNumbered b
    → IsNumbered (record b {
      chain_nonces = insert b.chain_nonces dest (wrapping_add u64_mod n 1);
      events = e ∷ b.events;
    })
unfolding numbering
send-IsNumbered b dest n e known sent h d =
    rw (nonces_to-sent d dest (wrapping_add u64_mod n 1) e b.events sent, get-insert)
      (elim (Bool-cases (dest == d)) [
        | inl hit ↦
            let eq : dest ≡ d = eq_of_beq dest d hit in
            let now : n ≡ length (nonces_to d b.events) % u64_mod = (h d).2 n (rw (← eq) known) in
            rw hit (ground (arith, (h d).0), λ none_left. cc, λ m e'. ground arith)
        | inr miss ↦ rw miss (h d)
      ])

-- A new chain starts at zero: nothing has been sent to it.
whitelist-IsNumbered :
    (b : Bridge) (id : ℕ)
    → get b.chain_nonces id ≡ none
    → IsNumbered b
    → IsNumbered (record b {
      chain_nonces = insert b.chain_nonces id 0;
      events = chain_whitelisted id ∷ b.events;
    })
whitelist-IsNumbered b id new h d =
    rw (nonces_to-unsent d (chain_whitelisted id) b.events refl, get-insert)
      (elim (Bool-cases (id == d)) [
        | inl hit ↦
            let eq : id ≡ d = eq_of_beq id d hit in
            let unused : nonces_to d b.events ≡ [] = (h d).1 (rw (← eq) new) in
            rw hit ((h d).0, λ none_left. cc, λ m e. ground (arith, ap length unused))
        | inr miss ↦ rw miss (h d)
      ])

Effect-IsNumbered :
    (config : Config) (b c : Bridge) → Effect config b c → IsNumbered b → IsNumbered c
Effect-IsNumbered config _ _ (send b dest n e known sent) h =
    send-IsNumbered b dest n e known sent h
Effect-IsNumbered config _ _ (whitelist b id other new) h = whitelist-IsNumbered b id new h
Effect-IsNumbered config _ _ (threshold b t positive) h = unsent-IsNumbered b _ refl h
Effect-IsNumbered config _ _ (resource b r) h = h
Effect-IsNumbered config _ _ (join b who new) h = unsent-IsNumbered b _ refl h
Effect-IsNumbered config _ _ (leave b who old) h = unsent-IsNumbered b _ refl h
Effect-IsNumbered config _ _ (vote b k who in_favour w e eq open_ timely first unsent) h =
    unsent-IsNumbered b e unsent h
Effect-IsNumbered config _ _ (count b k w stored open_ timely) h = h
Effect-IsNumbered config _ _ (report b e unsent) h = unsent-IsNumbered b e unsent h
Effect-IsNumbered config _ _ (next_block b n le) h = h

initial-IsNumbered : IsNumbered initial
unfolding nonces_to numbering
initial-IsNumbered d = (refl, λ _. refl, λ n. rw get-empty (λ e. cc))

-- n, …, 2, 1.
unfoldable pub countdown : ℕ → List ℕ
countdown zero = []
countdown (suc n) = suc n ∷ countdown n

numbering-eq-countdown : (k : ℕ) → k < u64_mod → numbering k ≡ countdown k
unfolding numbering countdown
numbering-eq-countdown zero h = refl
numbering-eq-countdown (suc k) h =
    let wrap : suc k % u64_mod ≡ suc k = omega arith in
    rw (wrap, numbering-eq-countdown k (omega arith))

-- From the empty storage, after any history, for every chain that less than 2^64 transfers have
-- been announced to: these transfers, fungible, non-fungible or generic, carry the nonces 1, 2, …
-- in the order in which they were announced, with none left out or given twice, and the chain's
-- stored nonce is their number; as long as dispatched proposals change the pallet's storage only by
-- the pallet's own changes.
pub History-nonces :
    (config : Config) {W : Type 0} (dispatch : Dispatch W)
    → ((call : ℕ) (o : Origin) → Acts config (dispatch call o))
    → (w : W) {rt : Runtime W} → History config dispatch (record { bridge = initial; world = w }) rt
    → (d : ℕ)
    → let sent = nonces_to d rt.bridge.events in
      length sent < u64_mod
      → (sent ≡ countdown (length sent))
        × ((n : ℕ) → get rt.bridge.chain_nonces d ≡ some n → n ≡ length sent)
History-nonces config dispatch acts w {rt} h d few =
    let numbered : IsNumbered rt.bridge =
      Effects_induction IsNumbered (Effect-IsNumbered config)
        (History-Effects config dispatch acts h) initial-IsNumbered in
    ((numbered d).0 ∙ numbering-eq-countdown _ few, λ n e. omega (arith, (numbered d).2 n e))
