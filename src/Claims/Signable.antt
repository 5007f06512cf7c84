-- ===== src/Claims/Signable.antt =====
-- The message that ethereum_signable_message of claims/src/lib.rs builds determines what was put in.
use mathlib.Core.Logic.{dite}
use mathlib.Core.List.{append_cancel_left}
use mathlib.Core.WellFounded
use mathlib.Core.WellFounded.{Acc, Acc-prop}
use native.Mathlib.Decide.{dec_lt}
use xxchain.Common.{
  ℕ, ◌+◌, ◌-◌, ◌*◌, ◌/◌, ◌%◌, ◌≤◌, ◌<◌, ◌≡◌, refl, sym, ap, ◌∙◌, List, [], ◌∷◌, ◌++◌, arith, length,
  length-append, codes,
}
use xxchain.Claims.Message.{lt_wf, tenth_lt, push_digits, digits, ethereum_signable_message}

-- What is pushed does not depend on why the loop ends.
round_of :
    (l : ℕ) (smaller : (m : ℕ) → m < l → Acc ◌<◌ m) (rev : List ℕ) (more : Dec (0 < l))
    → 0 < l
    → dite more
        (λ h. push_digits (l / 10) (smaller (l / 10) (tenth_lt l h)) ((b'0' + l % 10) ∷ rev))
        (λ _. rev)
      ≡ digits (l / 10) ((b'0' + l % 10) ∷ rev)
unfolding digits
round_of l smaller rev (yes h) pos =
    ap (λ w. push_digits (l / 10) w ((b'0' + l % 10) ∷ rev))
      (Acc-prop (smaller (l / 10) (tenth_lt l h)) (lt_wf.apply (l / 10)))
round_of l smaller rev (no h) pos = absurd (h pos)

one_round :
    (l : ℕ) (w : Acc ◌<◌ l) (rev : List ℕ)
    → 0 < l
    → push_digits l w rev ≡ digits (l / 10) ((b'0' + l % 10) ∷ rev)
unfolding push_digits
one_round l (Acc.intro _ smaller) rev pos = round_of l smaller rev (dec_lt 0 l) pos

no_round : (w : Acc ◌<◌ 0) (rev : List ℕ) → push_digits 0 w rev ≡ rev
unfolding push_digits dec_lt
no_round (Acc.intro _ smaller) rev = refl

-- The number that a decimal text stands for, after `acc`.
abbrev pub read_decimal : ℕ → List ℕ → ℕ
read_decimal acc [] = acc
read_decimal acc (c ∷ cs) = read_decimal (acc * 10 + (c - b'0')) cs

digits_zero : (out : List ℕ) → digits 0 out ≡ out
unfolding digits
digits_zero out = no_round (lt_wf.apply 0) out

digits_pos : (n : ℕ) (out : List ℕ) → 0 < n → digits n out ≡ digits (n / 10) ((b'0' + n % 10) ∷ out)
unfolding digits
digits_pos n out h = one_round n (lt_wf.apply n) out h

read-digits : (n : ℕ) (out : List ℕ) → read_decimal 0 (digits n out) ≡ read_decimal n out
read-digits n =
    WellFounded.induction lt_wf
      {C = λ m. (out : List ℕ) → read_decimal 0 (digits m out) ≡ read_decimal m out} n
      λ m ih out. elim (dec_lt 0 m) [
        | yes p ↦
            rw (digits_pos m out p, ih (m / 10) (tenth_lt m p))
              (ap (λ k. read_decimal k out) (omega arith))
        | no p ↦ let e : m ≡ 0 = omega arith in rw (e, digits_zero) refl
      ]

-- The decimal text of a length reads back as that length.
pub read_decimal-digits : (n : ℕ) → read_decimal 0 (digits n []) ≡ n
read_decimal-digits n = read-digits n []

length-digits : (n : ℕ) (out : List ℕ) → length (digits n out) ≡ length (digits n []) + length out
length-digits n =
    WellFounded.induction lt_wf
      {C = λ m. (out : List ℕ) → length (digits m out) ≡ length (digits m []) + length out} n
      λ m ih out. elim (dec_lt 0 m) [
        | yes p ↦
            let d = b'0' + m % 10 in
            rw (digits_pos m out p, digits_pos m [] p)
              (omega
                (arith, ih (m / 10) (tenth_lt m p) (d ∷ out), ih (m / 10) (tenth_lt m p) (d ∷ [])))
        | no p ↦ let e : m ≡ 0 = omega arith in rw (e, digits_zero, digits_zero) (omega arith)
      ]

-- One more round for a positive number.
digits_rounds : (n : ℕ) → 0 < n → length (digits n []) ≡ length (digits (n / 10) []) + 1
digits_rounds n h = rw (digits_pos n [] h) (length-digits (n / 10) ((b'0' + n % 10) ∷ []))

digits_mono : (n m : ℕ) → n ≤ m → length (digits n []) ≤ length (digits m [])
digits_mono n =
    WellFounded.induction lt_wf
      {C = λ k. (m : ℕ) → k ≤ m → length (digits k []) ≤ length (digits m [])} n
      λ k ih m le. elim (dec_lt 0 k) [
        | yes p ↦ omega (
          arith,
          digits_rounds k p,
          digits_rounds m (omega arith),
          ih (k / 10) (tenth_lt k p) (m / 10) (omega arith),
        )
        | no p ↦ let e : k ≡ 0 = omega arith in rw (e, digits_zero) (omega arith)
      ]

-- The length of the text and of what it counts, together, determine the length.
count-injective : (n m : ℕ) → length (digits n []) + n ≡ length (digits m []) + m → n ≡ m
count-injective n m e = elim (dec_lt n m) [
  | yes p ↦ absurd (omega (arith, digits_mono n m))
  | no p ↦ elim (dec_lt m n) [
    | yes q ↦ absurd (omega (arith, digits_mono m n))
    | no q ↦ omega arith
  ]
]

append-injective :
    (xs ys us vs : List ℕ) → length xs ≡ length ys → xs ++ us ≡ ys ++ vs → (xs ≡ ys) × (us ≡ vs)
append-injective [] [] us vs h e = (refl, e)
append-injective [] (y ∷ ys) us vs h e = absurd (omega arith)
append-injective (x ∷ xs) [] us vs h e = absurd (omega arith)
append-injective (x ∷ xs) (y ∷ ys) us vs h e =
    ground (arith, append-injective xs ys us vs (omega arith))

abbrev counted : List ℕ → List ℕ → List ℕ → List ℕ
counted prefix what extra =
    digits (length prefix + length what + length extra) [] ++ (prefix ++ (what ++ extra))

length-counted :
    (prefix what extra : List ℕ)
    → length (counted prefix what extra)
      ≡ length (digits (length prefix + length what + length extra) [])
        + (length prefix + length what + length extra)
length-counted prefix what extra = rw (length-append, length-append, length-append) (omega arith)

counted-injective :
    (prefix what extra what' extra' : List ℕ)
    → length what ≡ length what'
    → counted prefix what extra ≡ counted prefix what' extra'
    → (what ≡ what') × (extra ≡ extra')
counted-injective prefix what extra what' extra' h e =
    let n = length prefix + length what + length extra in
    let m = length prefix + length what' + length extra' in
    let same : n ≡ m = count-injective n m (
      sym (length-counted prefix what extra)
      ∙ ap (λ l. length l) e
      ∙ length-counted prefix what' extra') in
    let tails =
      append-injective (digits n []) (digits m []) (prefix ++ (what ++ extra))
        (prefix ++ (what' ++ extra')) (ap (λ k. length (digits k [])) same) e in
    append-injective what what' extra extra' h
      (append_cancel_left prefix (what ++ extra) (what' ++ extra') tails.1)

-- Two messages over the same prefix that are equal say the same: what is signed and what is added to
-- it are equal, if what is signed has the same length in both.
pub ethereum_signable_message-Binds :
    (prefix what extra what' extra' : List ℕ)
    → length what ≡ length what'
    → ethereum_signable_message prefix what extra ≡ ethereum_signable_message prefix what' extra'
    → (what ≡ what') × (extra ≡ extra')
unfolding ethereum_signable_message
ethereum_signable_message-Binds prefix what extra what' extra' h e =
    counted-injective prefix what extra what' extra' h (
      append_cancel_left (0x0a ∷ []) _ _
        (append_cancel_left (0x19 ∷ codes "Ethereum Signed Message:") _ _ e))
