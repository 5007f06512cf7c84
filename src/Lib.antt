-- ===== src/Lib.antt =====
-- Verification library of the runtime pallets of the xx network chain.
--
-- The pallets are modelled one by one. A pallet's storage is a record, a call is a function from an
-- origin, its arguments and the storage to a result and the storage that is left (Frame/Dispatch.antt),
-- with the errors of the code as values; what was written before an error stays in the returned
-- storage, as the functions themselves leave it. Accounts, hashes and block numbers are natural
-- numbers. Words wrap at their width as in a release build (Common/Words.antt).
--
-- Files:
--   Common      the libraries' names, Boolean tests, equality as an interface, lists, words
--   Frame       what the pallets take from the FRAME support library: errors, origins, dispatch
--               results, storage maps (a private association list with laws), the currency as a
--               record of operations with laws
--   Chainbridge chainbridge/src/lib.rs. ResourceId: derive_resource_id. Storage: types and
--               storage. Votes: impl ProposalVotes. Admin: administration calls and methods.
--               Transfers: outgoing transfers. Voting: votes, resolution, execution, EnsureBridge.
--               Call: enum Call, and the histories of the runtime. Effects: the changes that the code
--               makes to the storage as a step relation, and that it makes no others. Invariant,
--               Finality, Nonces, Execution, Liveness, Acknowledge, Authority: properties.
--   Swap        swap/src/lib.rs. Pallet: storage and calls. Parts, Moved, Native: transfers of native
--               tokens. Vault: what the bridge's account is for. Locking, Steps, Backing: every call as
--               a step of the vault, and what that says of a history. Authority: refusals. Genesis:
--               initialize and the genesis build.
--   Public      xx-public/src/lib.rs. Pallet: storage and calls. Distribution: what is paid.
--               Authority: refusals.
--   Cmix        xx-cmix/src/lib.rs and cmix.rs. Variables: the data of cmix.rs. Pallet: storage, calls,
--               era handler. Authority: refusals. Era: when variables change.
--   Custody     xx-team-custody/src/lib.rs and custody.rs. Pallet: storage. Payout: payouts of custody.rs.
--               Calls: genesis and calls. Balance, Square, Schedule, Keeps, Members, Same, Outside: what
--               each operation does to the books. History: the books from genesis on. Guards, Authority:
--               refusals. Received: what a member
--               receives. Idle: small worlds for runs.
--   Claims      claims/src/lib.rs. Storage: types and storage. Message: the signed messages. Process:
--               process_claim. Calls: calls and genesis. Validity: enum Call, validate_unsigned,
--               PrevalidateAttests. Address: serialisation. Hex, Signable, Paid, Outcome, Books, Credited,
--               History, Agreement, Attested, Moved, Ledger, Refinement, Genesis: properties.
--   Betanet     xx-betanet-rewards/src/lib.rs. Options: RewardOption. Pallet: storage, calls, handler.
--               Enact: enactment. Credited, Leftovers, Shares, Locks, Program, Course: properties.
--               Registers: the claims pallet with this handler, as runtime/xxnetwork/src/lib.rs puts
--               them together.
--   Economics   xx-economics/src. Pallet: lib.rs. Inflation: inflation.rs. Rewards: rewards.rs.
--               Sorting, Interest, Payout, Authority: properties.
--   Migrations  migrations/src/bridge_adjust.rs. BridgeAdjust: the migration and its checks. Checks:
--               when the checks pass.
--   Network     runtime/xxnetwork/src/lib.rs. Filter: BaseFilter and ProxyType. Superset: what
--               is_superset says of the kinds of proxies. Dispatcher: the bridge's proposals as calls of
--               the runtime. Delivery: a vote on the bridge that ends in a payment of the swap
--               pallet. Unvested: what a payout of the custody pallet does to what xx-economics
--               takes for stakeable. Origins: the origins and durations that the runtime gives to the
--               pallets, over the lengths of time of Constants (runtime/common/src/constants.rs, in a build
--               without the feature `fast-runtime`). Demand: who has to stand behind a call. Administration,
--               Moving, Allocations: properties of these configurations.
--   Fees        runtime/common/src/impls.rs: the split of fees and tips between treasury and author.
--   The Examples modules hold runs on small states.
--
-- How the parts interact: swap calls the bridge for an outgoing transfer (`on_bridge`) and the
-- currency for payments (`on_bank`); the bridge executes an approved proposal by dispatching a call
-- of any pallet with its own account as origin (`Dispatch`, a parameter, which
-- Network/Dispatcher.antt fills for the calls of the swap pallet). xx-public pays through the
-- currency and locks through its vesting schedules; the claims pallet tells a handler of a claim
-- with a reward, which is the rewards pallet (`RewardHandler`), and the rewards pallet changes the
-- storage of the claims pallet when it is enacted, so its own state is the `world` of the claims
-- storage; xx-economics reads the balances of the public accounts and of the rewards pool. Perbill
-- and the staking pallet's inflation curve (Frame/Perbill.antt), the staking and the proxy pallet
-- and the currency's imbalances are parameters with the laws that the code relies on. The test that a
-- motion of a collective has a proportion of its members in favour is a parameter too (Network/Demand.antt).
--
-- A proposed call is only compared and dispatched, so a number stands for its encoding. What a dispatched
-- call does to the bridge's storage is a hypothesis where a theorem needs it (`Acts`): it only makes
-- changes that the pallet's own functions make, which Rust's module privacy gives.
--
-- Loops: the loops of the code are over lists, ranges and map entries and are structural recursion, but
-- for the digit loop of the signed messages, which recurs on the proof that its number is accessible
-- below `<`, so that no loop has fuel.
--
-- Not modelled: weights, codec and metadata, which the macros generate; the node and its command line,
-- which are glue over the client library; the runtime's interfaces, which only call
-- the pallets, and its configurations of pallets that are not of this repository.
pub mod Common
pub mod Frame
pub mod Chainbridge
pub mod Claims
pub mod Betanet
pub mod Swap
pub mod Public
pub mod Cmix
pub mod Economics
pub mod Migrations
pub mod Network
pub mod Fees
pub mod Custody
