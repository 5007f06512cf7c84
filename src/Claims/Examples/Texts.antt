-- ===== src/Claims/Examples/Texts.antt =====
-- Texts of claims/src/lib.rs: signed messages, hexadecimal texts and addresses.
use xxchain.Common.{
  ℕ, suc, ◌*◌, ◌≡◌, refl, ◌++◌, List, [], ◌∷◌, arith, list_eq, nat_eq, length, replicate, codes,
}
use xxchain.Claims.Storage.{EthereumAddress}
use xxchain.Claims.Message.{nibble, to_ascii_hex, ethereum_signable_message, digits}
use xxchain.Claims.Signable.{ethereum_signable_message-Binds}
use xxchain.Claims.Address.{
  Hex, HexResult, read, failed, IsHexCodec, address, serialize, deserialize, deserialize-serialize,
}

-- The text of 26 and 255 is "1aff".
hex_test : to_ascii_hex (26 ∷ 255 ∷ []) ≡ codes "1aff"
unfolding to_ascii_hex nibble
hex_test = refl

-- 12 bytes after the count.
message_test :
    ethereum_signable_message (codes "Pay:") (codes "1a") (codes "ok now")
    ≡ 0x19 ∷ (codes "Ethereum Signed Message:" ++ (0x0a ∷ codes "12Pay:1aok now"))
unfolding ethereum_signable_message digits
message_test = refl

digits_test : digits 120 [] ≡ codes "120"
unfolding digits
digits_test = refl

ethereum_signable_message-Binds_example : (codes "1a" ≡ codes "1a") × (codes "ok" ≡ codes "ok")
ethereum_signable_message-Binds_example =
    ethereum_signable_message-Binds (codes "Pay:") (codes "1a") (codes "ok") (codes "1a")
      (codes "ok") refl refl

abbrev alice : EthereumAddress
alice = replicate 20 1

-- A stand-in for the hexadecimal codec: each byte twice.
abbrev double : List ℕ → List ℕ
double [] = []
double (b ∷ bs) = b ∷ b ∷ double bs

abbrev put_front : ℕ → HexResult → HexResult
put_front b (read r) = read (b ∷ r)
put_front b (failed e) = failed e

abbrev halve : List ℕ → HexResult
halve [] = read []
halve (b ∷ []) = failed []
halve (b ∷ c ∷ bs) = put_front b (halve bs)

halve-double : (bytes : List ℕ) → halve (double bytes) ≡ read bytes
halve-double [] = refl
halve-double (b ∷ bs) = rw (halve-double bs) refl

length-double : (bytes : List ℕ) → length (double bytes) ≡ 2 * length bytes
length-double [] = refl
length-double (b ∷ bs) = omega (arith, length-double bs)

length-put_front :
    (b : ℕ) (bs bytes : List ℕ) (r : HexResult)
    → ((rest : List ℕ) → r ≡ read rest → length bs ≡ 2 * length rest)
    → put_front b r ≡ read bytes
    → suc (suc (length bs)) ≡ 2 * length bytes
length-put_front b bs bytes (read rest) ih h =
    let same : b ∷ rest ≡ bytes = cc h in rw (← same) (omega (arith, ih rest refl))
length-put_front b bs bytes (failed e) ih h = absurd (cc h)

length-halve : (text bytes : List ℕ) → halve text ≡ read bytes → length text ≡ 2 * length bytes
length-halve [] bytes h = let same : [] ≡ bytes = cc h in rw (← same) refl
length-halve (b ∷ []) bytes h = absurd (cc h)
length-halve (b ∷ c ∷ bs) bytes h =
    length-put_front b bs bytes (halve bs) (λ rest e. length-halve bs rest e) h

abbrev doubling : Hex
doubling = record { to_hex = double; from_hex = halve }

doubling-IsHexCodec : IsHexCodec doubling
doubling-IsHexCodec = record {
  length-to_hex = length-double;
  from_hex-to_hex = halve-double;
  length-from_hex = length-halve;
}

deserialize-serialize_example : deserialize doubling (serialize doubling alice) ≡ address alice
deserialize-serialize_example = deserialize-serialize doubling doubling-IsHexCodec alice refl
