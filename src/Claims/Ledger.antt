-- ===== src/Claims/Ledger.antt =====
-- The claims pallet of claims/src/lib.rs as an abstract ledger, and the operations on it.
use xxchain.Common.{ℕ, ◌+◌, ◌-◌, ◌≤◌, ◌≡◌, Option, none, some, list_eq, nat_eq, ◌==◌, if◌then◌else◌}
use xxchain.Claims.Storage.{EthereumAddress}

-- What each address can claim, what all can, and what was paid to each account.
pub record Ledger : Type 0 where
  pub owed : EthereumAddress → Option ℕ
  pub total : ℕ
  pub paid_out : ℕ → ℕ

-- The ledger's entry of one address is set.
abbrev pub put :
    EthereumAddress → Option ℕ → (EthereumAddress → Option ℕ) → EthereumAddress → Option ℕ
put a v owed j = if a == j then v else owed j

pub data Operation : Type 0 where
  pay : (signer : EthereumAddress) → (dest due : ℕ) → Operation
  grant : EthereumAddress → ℕ → Operation
  transfer : (old new : EthereumAddress) → Operation

-- What is moved replaces what the new address had; nothing moves from an address without a claim.
abbrev pub moved_to :
    EthereumAddress → Option ℕ → (EthereumAddress → Option ℕ) → EthereumAddress → Option ℕ
moved_to new none owed = owed
moved_to new (some v) owed = put new (some v) owed

abbrev pub apply : Operation → Ledger → Ledger
apply (pay a dest due) l = record {
  owed = put a none l.owed;
  total = l.total - due;
  paid_out = λ x. (if dest == x then due else 0) + l.paid_out x;
}
apply (grant a value) l = record l { owed = put a (some value) l.owed; total = l.total + value }
apply (transfer old new) l = record l { owed = moved_to new (l.owed old) (put old none l.owed) }

-- An operation that the ledger can make: only what is owed is paid.
abbrev pub Enabled : Operation → Ledger → Type 0
Enabled (pay a dest due) l = (l.owed a ≡ some due) × (due ≤ l.total)
Enabled (grant a value) l = Unit
Enabled (transfer old new) l = Unit
