-- ===== src/Claims/Message.antt =====
-- The signed messages of claims/src/lib.rs: to_ascii_hex, ethereum_signable_message, eth_recover.
use mathlib.Core.Logic.{dite}
use mathlib.Core.WellFounded.{Acc, WellFounded}
use native.Mathlib.Decide.{dec_lt}
use xxchain.Common.{
  ℕ, zero, suc, ◌+◌, ◌-◌, ◌/◌, ◌%◌, ◌<◌, Option, some, none, List, [], ◌∷◌, ◌++◌, arith, ltb,
  if◌then◌else◌, length, codes, drop,
}
use xxchain.Claims.Storage.{Config, EcdsaSignature, EthereumAddress}

-- `push_nibble`
unfoldable pub nibble : ℕ → ℕ
nibble n = if ltb n 10 then b'0' + n else b'a' - 10 + n

unfoldable pub to_ascii_hex : List ℕ → List ℕ
to_ascii_hex [] = []
to_ascii_hex (b ∷ bs) = nibble (b / 16) ∷ nibble (b % 16) ∷ to_ascii_hex bs

Acc-below : (k n : ℕ) → n < k → Acc ◌<◌ n
Acc-below zero n h = absurd (omega arith)
Acc-below (suc k) n h = Acc.intro n (λ m hm. Acc-below k m (omega arith))

pub lt_wf : WellFounded ◌<◌
lt_wf = record { apply = λ n. Acc-below (suc n) n (omega arith) }

pub tenth_lt : (n : ℕ) → 0 < n → n / 10 < n
tenth_lt n h = omega arith

-- The body of `while l > 0`, which pushes digits on `rev`, lowest first. The list here has the last
-- pushed digit in front, so it is the reversed one that the code appends.
unfoldable pub push_digits : (l : ℕ) → Acc ◌<◌ l → List ℕ → List ℕ
push_digits l (Acc.intro _ smaller) rev =
    dite (dec_lt 0 l)
      (λ h. push_digits (l / 10) (smaller (l / 10) (tenth_lt l h)) ((b'0' + l % 10) ∷ rev))
      (λ _. rev)

unfoldable pub digits : ℕ → List ℕ → List ℕ
unfolding push_digits lt_wf Acc-below dec_lt
digits l = push_digits l (lt_wf.apply l)

-- What the Ethereum RPC signs.
unfoldable pub ethereum_signable_message : List ℕ → List ℕ → List ℕ → List ℕ
ethereum_signable_message prefix what extra =
    (0x19 ∷ codes "Ethereum Signed Message:")
    ++ ((0x0a ∷ [])
        ++ (digits (length prefix + length what + length extra) [] ++ (prefix ++ (what ++ extra))))

-- The address that signed; the last 20 bytes of the hash of the recovered key.
unfoldable pub eth_recover : Config → EcdsaSignature → List ℕ → List ℕ → Option EthereumAddress
eth_recover config s what extra =
    let msg = config.keccak_256 (ethereum_signable_message config.prefix what extra) in
    elim (config.secp256k1_ecdsa_recover s msg) [
      | none ↦ none
      | some key ↦ some (drop 12 (config.keccak_256 key))
    ]
