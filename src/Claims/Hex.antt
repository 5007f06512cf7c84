-- ===== src/Claims/Hex.antt =====
-- to_ascii_hex of claims/src/lib.rs against a reader of hexadecimal text.
use xxchain.Common.{
  ℕ, ◌+◌, ◌-◌, ◌*◌, ◌/◌, ◌%◌, ◌≤◌, ◌<◌, ◌≡◌, refl, sym, ap, ◌∙◌, ◌⊎◌, List, [], ◌∷◌, arith, ltb,
  if◌then◌else◌, length,
}
use xxchain.Claims.Message.{nibble, to_ascii_hex}

abbrev pub All : (ℕ → Type 0) → List ℕ → Type 0
All P [] = Unit
All P (x ∷ xs) = P x × All P xs

abbrev pub IsByte : ℕ → Type 0
IsByte b = b < 256

-- A digit or a letter from a to f.
abbrev pub IsHexDigit : ℕ → Type 0
IsHexDigit c = ((b'0' ≤ c) × (c ≤ b'9')) ⊎ ((b'a' ≤ c) × (c ≤ b'f'))

abbrev pub hex_value : ℕ → ℕ
hex_value c = if ltb c b'a' then c - b'0' else c - b'a' + 10

-- The bytes that a hexadecimal text stands for.
abbrev pub from_hex : List ℕ → List ℕ
from_hex [] = []
from_hex (a ∷ []) = []
from_hex (a ∷ b ∷ r) = (hex_value a * 16 + hex_value b) ∷ from_hex r

hex_value-nibble : (n : ℕ) → n < 16 → hex_value (nibble n) ≡ n
unfolding nibble
hex_value-nibble n h = ground arith

nibble-IsHexDigit : (n : ℕ) → n < 16 → IsHexDigit (nibble n)
unfolding nibble
nibble-IsHexDigit n h = ground arith

-- The text of a list of bytes is twice as long, consists of digits and small letters from a to f,
-- and reads back as the same bytes.
pub to_ascii_hex_lem :
    (bs : List ℕ)
    → All IsByte bs
    → (length (to_ascii_hex bs) ≡ 2 * length bs)
      × All IsHexDigit (to_ascii_hex bs)
      × (from_hex (to_ascii_hex bs) ≡ bs)
unfolding to_ascii_hex
to_ascii_hex_lem [] h = (refl, tt, refl)
to_ascii_hex_lem (b ∷ bs) (hb, hbs) =
    let (len, digits, back) = to_ascii_hex_lem bs hbs in
    (
      omega (arith, len),
      (
        nibble-IsHexDigit (b / 16) (omega arith),
        (nibble-IsHexDigit (b % 16) (omega arith), digits),
      ),
      ground (arith, back, hex_value-nibble (b / 16), hex_value-nibble (b % 16)),
    )

pub to_ascii_hex_injective :
    (xs ys : List ℕ) → All IsByte xs → All IsByte ys → to_ascii_hex xs ≡ to_ascii_hex ys → xs ≡ ys
to_ascii_hex_injective xs ys hx hy e =
    sym (to_ascii_hex_lem xs hx).2 ∙ ap from_hex e ∙ (to_ascii_hex_lem ys hy).2
