-- ===== src/Chainbridge/Effects/Acts.antt =====
-- Actions of the runtime that change the pallet's storage by effects only, with one rule for each
-- way to build an action.
use xxchain.Common.{ℕ, ◌≡◌, refl, Bool, true, false}
use xxchain.Frame.{
  Result, ok, err, DispatchError, chainbridge, must_be_relayer, chain_not_whitelisted,
  resource_does_not_exist, Exec, DispatchResult, ◌>>=◌, ◌>>◌, ensure, Origin, ensure_signed,
}
use xxchain.Chainbridge.Storage.{Config, Bridge, Runtime, on_bridge}
use xxchain.Chainbridge.Effects.{Effects, here, Effects-trans}

-- An action of the runtime that changes the pallet's storage by effects only.
pub record Acts {W A : Type 0} (config : Config) (m : Exec (Runtime W) A) : Type 0 where
  pub at : (rt : Runtime W) → Effects config rt.bridge (m rt).1.bridge

module _ {W A B : Type 0} {config : Config} where
  Acts-continue :
      (r : Result A) (f : A → Exec (Runtime W) B) (b : Bridge) (rt : Runtime W)
      → ((a : A) → Acts config (f a))
      → Effects config b rt.bridge
      → let after : Exec (Runtime W) A = λ s. (r, s) in Effects config b ((after >>= f) rt).1.bridge
  Acts-continue (ok a) f b rt acts before = Effects-trans before ((acts a).at rt)
  Acts-continue (err e) f b rt acts before = before

  pub Acts-bind :
      (m : Exec (Runtime W) A) (f : A → Exec (Runtime W) B)
      → Acts config m
      → ((a : A) → Acts config (f a))
      → Acts config (m >>= f)
  Acts-bind m f first rest = record {
    at = λ rt. Acts-continue (m rt).0 f rt.bridge (m rt).1 rest (first.at rt);
  }

module _ {W A : Type 0} {config : Config} where
  pub Acts-on_bridge :
      (m : Exec Bridge A)
      → ((b : Bridge) → Effects config b (m b).1)
      → Acts {W = W} config (on_bridge m)
  Acts-on_bridge m h = record { at = λ rt. h rt.bridge }

  pub Acts-still : (m : Exec (Runtime W) A) → ((rt : Runtime W) → (m rt).1 ≡ rt) → Acts config m
  Acts-still m same = record { at = λ rt. rw (same rt) here }

  pub Acts-ensure :
      (c : Bool) (e : DispatchError) (m : Exec (Runtime W) A)
      → Acts config m
      → Acts config (ensure c e >> m)
  Acts-ensure true e m acts = acts
  Acts-ensure false e m acts = Acts-still _ (λ rt. refl)

  -- Only a signed origin gets past `ensure_signed`.
  pub Acts-signed :
      (origin : Origin) (f : ℕ → Exec (Runtime W) A)
      → ((who : ℕ) → Acts config (f who))
      → Acts config (ensure_signed origin >>= f)
  Acts-signed (Origin.signed who) f acts = acts who
  Acts-signed _ f acts = Acts-still _ (λ rt. refl)

module _ {W : Type 0} {config : Config} where
  -- The guards of a vote change nothing.
  pub guarded-Acts :
      (origin : Origin) (relayer : ℕ → Bool) (chain resource : Bool)
      (body : ℕ → DispatchResult (Runtime W))
      → ((who : ℕ) → Acts config (body who))
      → Acts config (do
        who ← ensure_signed origin
        ensure (relayer who) (chainbridge must_be_relayer)
        ensure chain (chainbridge chain_not_whitelisted)
        ensure resource (chainbridge resource_does_not_exist)
        body who)
  guarded-Acts origin relayer chain resource body acts = Acts-signed origin _ λ who.
      Acts-ensure (relayer who) _ _ (Acts-ensure chain _ _ (Acts-ensure resource _ _ (acts who)))
