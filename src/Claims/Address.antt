-- ===== src/Claims/Address.antt =====
-- Serialisation of an EthereumAddress in claims/src/lib.rs. The crate rustc_hex is a parameter.
use xxchain.Common.{
  ℕ, ◌*◌, ◌≡◌, refl, Bool, true, false, ◌&&◌, not, List, [], ◌∷◌, ◌++◌, arith, length, drop, ◌==◌,
  nat_eq, list_eq, if◌then◌else◌, codes, Bool-cases, inl, inr,
}
use xxchain.Claims.Storage.{EthereumAddress}

-- `ToHex::to_hex` and `FromHex::from_hex`, the error of which is kept as a text.
pub data HexResult : Type 0 where
  read : List ℕ → HexResult
  failed : List ℕ → HexResult

pub record Hex : Type 0 where
  pub to_hex : List ℕ → List ℕ
  pub from_hex : List ℕ → HexResult

-- Two characters for each byte, which read back as the bytes, and a text that is read has two for
-- each byte.
pub record IsHexCodec (hex : Hex) : Type 0 where
  pub length-to_hex : (bytes : List ℕ) → length (hex.to_hex bytes) ≡ 2 * length bytes
  pub from_hex-to_hex : (bytes : List ℕ) → hex.from_hex (hex.to_hex bytes) ≡ read bytes
  pub length-from_hex :
      (text bytes : List ℕ) → hex.from_hex text ≡ read bytes → length text ≡ 2 * length bytes

pub data Deserialized : Type 0 where
  address : EthereumAddress → Deserialized
  bad_length : Deserialized
  bad_hex : List ℕ → Deserialized

-- `starts_with("0x")`
abbrev pub starts_with_0x : List ℕ → Bool
starts_with_0x [] = false
starts_with_0x (a ∷ []) = false
starts_with_0x (a ∷ b ∷ r) = (a == b'0') && (b == b'x')

module _ (hex : Hex) where
  unfoldable pub serialize : EthereumAddress → List ℕ
  serialize a = codes "0x" ++ hex.to_hex a

  -- `from_hex(s).map_err(...)?` and the copy into the 20 bytes.
  abbrev pub parsed : HexResult → Deserialized
  parsed (read raw) = address raw
  parsed (failed e) = bad_hex e

  unfoldable pub deserialize : List ℕ → Deserialized
  deserialize base_string =
      let offset = if starts_with_0x base_string then 2 else 0 in
      let s = drop offset base_string in
      if not (length s == 40) then bad_length else parsed (hex.from_hex s)

  -- Every address of 20 bytes is read back from the text that it is written as.
  pub deserialize-serialize :
      IsHexCodec hex → (a : EthereumAddress) → length a ≡ 20 → deserialize (serialize a) ≡ address a
  unfolding deserialize serialize
  deserialize-serialize codec a h =
      let forty : (length (hex.to_hex a) == 40) ≡ true = ground (arith, codec.length-to_hex a) in
      rw (forty, codec.from_hex-to_hex a) refl

  accepted :
      (s a : List ℕ) (r : HexResult)
      → IsHexCodec hex
      → (length s == 40) ≡ true
      → hex.from_hex s ≡ r
      → parsed r ≡ address a
      → length a ≡ 20
  accepted s a (read raw) codec forty e h =
      let same : raw ≡ a = cc h in rw (← same) (ground (arith, codec.length-from_hex s raw e))
  accepted s a (failed x) codec forty e h = absurd (cc h)

  -- What is read is an address of 20 bytes, so that the copy into it does not panic.
  pub deserialize-length :
      IsHexCodec hex
      → (text : List ℕ) (a : EthereumAddress) → deserialize text ≡ address a
      → length a ≡ 20
  unfolding deserialize
  deserialize-length codec text a h =
      let s = drop (if starts_with_0x text then 2 else 0) text in
      elim (Bool-cases (length s == 40)) [
        | inl forty ↦
            let e : parsed (hex.from_hex s) ≡ address a = rw (deserialize, forty) at h in
            accepted s a (hex.from_hex s) codec forty refl e
        | inr other ↦ let e : bad_length ≡ address a = rw (deserialize, other) at h in absurd (cc e)
      ]
