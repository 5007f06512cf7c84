-- ===== src/Chainbridge/Storage.antt =====
-- The types and the storage of chainbridge/src/lib.rs. Chains, nonces, accounts and block numbers
-- are numbers. A proposed call is only compared and dispatched: a number stands for its encoding.
use xxchain.Common.{ℕ, Bool, true, false, none, some, List, [], ◌∷◌, pair_eq, list_eq, nat_eq}
use xxchain.Frame.{Origin, DispatchResult, Exec, ok, within}
use xxchain.Frame.StorageMap.{StorageMap, get, empty}

abbrev pub default_relayer_threshold : ℕ
default_relayer_threshold = 1

pub data ProposalStatus : Type 0 where
  initiated approved rejected : ProposalStatus

pub record ProposalVotes : Type 0 where
  pub votes_for : List ℕ
  pub votes_against : List ℕ
  pub status : ProposalStatus
  pub expiry : ℕ

-- `ProposalVotes::default`
abbrev pub default_votes : ProposalVotes
default_votes = record { votes_for = []; votes_against = []; status = initiated; expiry = 0 }

-- `Event`; an amount is a `U256`.
pub data Event : Type 0 where
  relayer_threshold_changed : ℕ → Event
  chain_whitelisted : ℕ → Event
  relayer_added relayer_removed : ℕ → Event
  fungible_transfer : (chain nonce : ℕ) → List ℕ → (amount : ℕ) → List ℕ → Event
  non_fungible_transfer : (chain nonce : ℕ) → List ℕ → List ℕ → List ℕ → List ℕ → Event
  generic_transfer : (chain nonce : ℕ) → List ℕ → List ℕ → Event
  vote_for vote_against : (chain nonce who : ℕ) → Event
  proposal_approved proposal_rejected proposal_succeeded proposal_failed : (chain nonce : ℕ) → Event

-- `trait Config`, as far as it is data. `account_id` is what `PalletId` converts into.
pub record Config : Type 0 where
  pub chain_id : ℕ
  pub proposal_lifetime : ℕ
  pub account_id : ℕ
  pub admin_origin : Origin → Bool

-- The key of `Votes`: a chain, and a nonce with a proposal.
abbrev pub VoteKey : Type 0
VoteKey = ℕ × (ℕ × ℕ)

abbrev pub vote_key : ℕ → ℕ → ℕ → VoteKey
vote_key src_id nonce prop = (src_id, (nonce, prop))

-- The pallet's storage, the block number that it reads from the system pallet, and the events that
-- it has deposited, newest first.
pub record Bridge : Type 0 where
  pub chain_nonces : StorageMap ℕ ℕ
  pub relayer_threshold : ℕ
  pub relayers : StorageMap ℕ Bool
  pub relayer_count : ℕ
  pub votes : StorageMap VoteKey ProposalVotes
  pub resources : StorageMap (List ℕ) (List ℕ)
  pub block_number : ℕ
  pub events : List Event

-- The storage before genesis.
abbrev pub initial : Bridge
initial = record {
  chain_nonces = empty;
  relayer_threshold = default_relayer_threshold;
  relayers = empty;
  relayer_count = 0;
  votes = empty;
  resources = empty;
  block_number = 0;
  events = [];
}

abbrev pub deposit_event : Event → DispatchResult Bridge
deposit_event e b = (ok tt, record b { events = e ∷ b.events })

-- `is_relayer`: an account that is not in the map has the default, `false`.
unfoldable pub is_relayer : Bridge → ℕ → Bool
is_relayer b who = elim (get b.relayers who) [ none ↦ false | some v ↦ v ]

unfoldable pub resource_exists : Bridge → List ℕ → Bool
resource_exists b id = elim (get b.resources id) [ none ↦ false | some _ ↦ true ]

unfoldable pub is_whitelisted : Bridge → ℕ → Bool
is_whitelisted b id = elim (get b.chain_nonces id) [ none ↦ false | some _ ↦ true ]

-- The runtime around the pallet: its storage, and that of all other pallets.
pub record Runtime (W : Type 0) : Type 0 where
  pub bridge : Bridge
  pub world : W

abbrev pub on_bridge : {W A : Type 0} → Exec Bridge A → Exec (Runtime W) A
on_bridge = within (λ rt. rt.bridge) (λ rt b. record rt { bridge = b })

-- The dispatch of a proposed call, which may be a call of any pallet, this one included.
abbrev pub Dispatch : Type 0 → Type 0
Dispatch W = ℕ → Origin → DispatchResult (Runtime W)
