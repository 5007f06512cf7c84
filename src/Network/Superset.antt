-- ===== src/Network/Superset.antt =====
-- What `is_superset` of runtime/xxnetwork/src/lib.rs says of the calls that two kinds of proxies allow.
use xxchain.Common.{ℕ, ◌≡◌, ◌↔◌, refl, Bool, true, ◌||◌, ◌&&◌, nat_eq, arith}
use xxchain.Network.Filter.{
  RuntimeCall, ProxyType, any, non_transfer, governance, voting, Variants, is_same, is_wider,
  is_superset, filter, is_transfer, is_governance, is_staking, is_voting,
}

module _ (variants : Variants) where
  -- Every call that a proxy of the second kind may make, one of the first may make.
  abbrev pub Allows : ProxyType → ProxyType → Type 0
  Allows x y = (c : RuntimeCall) → filter variants y c ≡ true → filter variants x c ≡ true

  governance-NonTransfer : Allows non_transfer governance
  unfolding filter is_transfer is_governance
  governance-NonTransfer (RuntimeCall.assets c) h = absurd (cc h)
  governance-NonTransfer (RuntimeCall.uniques c) h = absurd (cc h)
  governance-NonTransfer (RuntimeCall.nfts c) h = absurd (cc h)
  governance-NonTransfer (RuntimeCall.balances c) h = absurd (cc h)
  governance-NonTransfer (RuntimeCall.vesting c) h = absurd (cc h)
  governance-NonTransfer _ h = refl

  staking-NonTransfer : Allows non_transfer ProxyType.staking
  unfolding filter is_transfer is_staking
  staking-NonTransfer (RuntimeCall.staking c) h = refl
  staking-NonTransfer _ h = absurd (cc h)

  voting-Governance : Allows governance voting
  unfolding filter is_governance is_voting
  voting-Governance (RuntimeCall.democracy c) h = refl
  voting-Governance (RuntimeCall.elections c) h = refl
  voting-Governance _ h = absurd (cc h)

  -- What `is_superset` says, and the pair that it does not know of.
  abbrev pub contains_all : ProxyType → ProxyType → Bool
  contains_all x y = is_superset x y || (is_same x governance && is_same y voting)

  contains_all-Allows : (x y : ProxyType) → contains_all x y ≡ true → Allows x y
  unfolding is_superset is_wider filter
  contains_all-Allows any y h = λ c allowed. refl
  contains_all-Allows non_transfer any h = absurd (cc h)
  contains_all-Allows non_transfer non_transfer h = λ c allowed. allowed
  contains_all-Allows non_transfer governance h = governance-NonTransfer
  contains_all-Allows non_transfer ProxyType.staking h = staking-NonTransfer
  contains_all-Allows non_transfer voting h =
      λ c allowed. governance-NonTransfer c (voting-Governance c allowed)
  contains_all-Allows governance governance h = λ c allowed. allowed
  contains_all-Allows governance voting h = voting-Governance
  contains_all-Allows governance _ h = absurd (cc h)
  contains_all-Allows ProxyType.staking ProxyType.staking h = λ c allowed. allowed
  contains_all-Allows ProxyType.staking _ h = absurd (cc h)
  contains_all-Allows voting voting h = λ c allowed. allowed
  contains_all-Allows voting _ h = absurd (cc h)

  module _ (vote : ℕ) (is_vote : variants.democracy_vote vote ≡ true) where
    Allows-contains_all : (x y : ProxyType) → Allows x y → contains_all x y ≡ true
    unfolding is_superset is_wider filter is_transfer is_governance is_staking is_voting
    Allows-contains_all any y inc = ground arith
    Allows-contains_all non_transfer any inc = absurd (cc (inc (RuntimeCall.balances 0) refl))
    Allows-contains_all non_transfer _ inc = refl
    Allows-contains_all governance any inc = absurd (cc (inc (RuntimeCall.balances 0) refl))
    Allows-contains_all governance non_transfer inc = absurd (cc (inc (RuntimeCall.system 0) refl))
    Allows-contains_all governance ProxyType.staking inc =
        absurd (cc (inc (RuntimeCall.staking 0) refl))
    Allows-contains_all governance _ inc = refl
    Allows-contains_all ProxyType.staking ProxyType.staking inc = refl
    Allows-contains_all ProxyType.staking voting inc =
        absurd (cc (inc (RuntimeCall.democracy vote) (rw is_vote refl)))
    Allows-contains_all ProxyType.staking _ inc = absurd (cc (inc (RuntimeCall.council 0) refl))
    Allows-contains_all voting voting inc = refl
    Allows-contains_all voting ProxyType.staking inc =
        absurd (cc (inc (RuntimeCall.staking 0) refl))
    Allows-contains_all voting _ inc = absurd (cc (inc (RuntimeCall.council 0) refl))

    -- One kind of proxy may make every call that another may make exactly if `is_superset` says so,
    -- or the first is the governance and the second the voting kind, whose calls the governance kind
    -- may all make although `is_superset` denies it; given that some call is a vote of the democracy
    -- pallet.
    pub is_superset-IsExact :
        (x y : ProxyType)
        → ((is_superset x y || (is_same x governance && is_same y voting)) ≡ true) ↔ Allows x y
    is_superset-IsExact x y = (contains_all-Allows x y, Allows-contains_all x y)
