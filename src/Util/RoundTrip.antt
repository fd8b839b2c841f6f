-- ===== src/Util/RoundTrip.antt =====
-- Round trips of the hexadecimal text of core/src/util.rs, and the texts that it decodes.
use ankai.Prelude.{
  ℕ, ◌<◌, ◌≤◌, ◌%◌, ◌/◌, ◌≡◌, refl, some, none, false, length, All, List, [], ◌∷◌, ◌==◌, arith, ap,
  ◌*◌, inl, inr, Bool-cases, Option,
}
use ankai.Util.{
  encode_hex, encode_byte, hex_digit, digit_value, two_digits, from_str_radix, decode_hex,
  decode_pairs, is_continuation, starts_inside, cons_byte, Decoded, done, panic,
}

abbrev pub IsByte : ℕ → Type 0
IsByte b = b < 256

digit_value-hex_digit :
    (n : ℕ)
    → n < 16
    → (digit_value (hex_digit n) ≡ some n)
      × (is_continuation (hex_digit n) ≡ false)
      × ((hex_digit n == b'+') ≡ false)
unfolding digit_value hex_digit is_continuation
digit_value-hex_digit n h = ground arith

length-encode_hex : (bytes : List ℕ) → length (encode_hex bytes) % 2 ≡ 0
unfolding encode_hex encode_byte
length-encode_hex [] = refl
length-encode_hex (b ∷ bytes) = omega (arith, length-encode_hex bytes)

starts_inside-encode_hex :
    (bytes : List ℕ) → All IsByte bytes → starts_inside (encode_hex bytes) ≡ false
unfolding encode_hex encode_byte starts_inside
starts_inside-encode_hex [] h = refl
starts_inside-encode_hex (b ∷ bytes) h = (digit_value-hex_digit (b / 16) (omega arith)).1

from_str_radix-encode_byte :
    (b : ℕ) → IsByte b → from_str_radix (hex_digit (b / 16)) (hex_digit (b % 16)) ≡ some b
unfolding from_str_radix two_digits
from_str_radix-encode_byte b h =
    let (high, _, unsigned) = digit_value-hex_digit (b / 16) (omega arith) in
    let (low, _, _) = digit_value-hex_digit (b % 16) (omega arith) in
    rw (unsigned, high, low) (ap some (omega arith))

decode_pairs-encode_hex :
    (bytes : List ℕ) → All IsByte bytes → decode_pairs (encode_hex bytes) ≡ done (some bytes)
unfolding encode_hex encode_byte decode_pairs cons_byte
decode_pairs-encode_hex [] h = refl
decode_pairs-encode_hex (b ∷ bytes) h = ground (
  arith,
  digit_value-hex_digit (b / 16),
  from_str_radix-encode_byte b,
  starts_inside-encode_hex bytes,
  decode_pairs-encode_hex bytes,
)

-- Decoding what was encoded gives back the bytes.
pub decode_hex-encode_hex :
    (bytes : List ℕ) → All IsByte bytes → decode_hex (encode_hex bytes) ≡ done (some bytes)
unfolding decode_hex
decode_hex-encode_hex bytes h =
    ground (arith, length-encode_hex bytes, decode_pairs-encode_hex bytes)

-- Two digits of input for each byte of output.
abbrev pub Halves : List ℕ → Decoded → Type 0
Halves hex (done (some bytes)) = (length hex ≡ 2 * length bytes) × All IsByte bytes
Halves hex (done none) = Unit
Halves hex panic = ⊥

abbrev Below : ℕ → Option ℕ → Type 0
Below n none = Unit
Below n (some v) = v < n

digit_value-Below : (c : ℕ) → Below 16 (digit_value c)
unfolding digit_value
digit_value-Below c = ground arith

two_digits-Below : (h l : Option ℕ) → Below 16 h → Below 16 l → Below 256 (two_digits h l)
unfolding two_digits
two_digits-Below (some h) (some l) p q = omega arith
two_digits-Below (some h) none p q = tt
two_digits-Below none l p q = tt

Below-256 : (o : Option ℕ) → Below 16 o → Below 256 o
Below-256 none h = tt
Below-256 (some v) h = omega arith

from_str_radix-Below : (a b : ℕ) → Below 256 (from_str_radix a b)
unfolding from_str_radix
from_str_radix-Below a b = elim (Bool-cases (a == b'+')) [
  | inl e ↦ rw e (Below-256 _ (digit_value-Below b))
  | inr e ↦ rw e (two_digits-Below _ _ (digit_value-Below a) (digit_value-Below b))
]

cons_byte-Halves :
    (a b v : ℕ) (rest : List ℕ) (later : Decoded)
    → IsByte v
    → Halves rest later
    → Halves (a ∷ b ∷ rest) (cons_byte v later)
unfolding cons_byte
cons_byte-Halves a b v rest (done none) p h = tt
cons_byte-Halves a b v rest (done (some bytes)) p h = (omega arith, (p, h.1))
cons_byte-Halves a b v rest panic p h = h

abbrev pub Ascii : ℕ → Type 0
Ascii c = c < 128

starts_inside-Ascii : (rest : List ℕ) → All Ascii rest → starts_inside rest ≡ false
unfolding starts_inside is_continuation
starts_inside-Ascii [] h = refl
starts_inside-Ascii (c ∷ rest) h = ground arith

is_continuation-Ascii : (a : ℕ) → a < 128 → is_continuation a ≡ false
unfolding is_continuation
is_continuation-Ascii a h = ground arith

decode_pairs-Halves : (hex : List ℕ) → All Ascii hex → Halves hex (decode_pairs hex)
unfolding decode_pairs
decode_pairs-Halves [] h = (refl, tt)
decode_pairs-Halves (a ∷ []) h = tt
decode_pairs-Halves (a ∷ b ∷ rest) h =
    rw (is_continuation-Ascii a h.0, starts_inside-Ascii rest h.1.1)
      (by_value (from_str_radix a b) (from_str_radix-Below a b) (decode_pairs-Halves rest h.1.1))
  where
    by_value :
        (o : Option ℕ)
        → Below 256 o
        → Halves rest (decode_pairs rest)
        → Halves
            (a ∷ b ∷ rest)
            (elim o [ none ↦ done none | some v ↦ cons_byte v (decode_pairs rest) ])
    by_value none p ih = tt
    by_value (some v) p ih = cons_byte-Halves a b v rest (decode_pairs rest) p ih

-- An ASCII text never makes the decoder panic, and what it decodes to is bytes, half as many as the
-- text has characters.
pub decode_hex-Halves : (hex : List ℕ) → All Ascii hex → Halves hex (decode_hex hex)
unfolding decode_hex
decode_hex-Halves hex h = elim (Bool-cases (length hex % 2 == 0)) [
  | inl e ↦ rw e (decode_pairs-Halves hex h)
  | inr e ↦ rw e tt
]

-- A plus before one digit is decoded, to that digit, though it is no hexadecimal digit.
pub decode_hex-plus : (n : ℕ) → n < 16 → decode_hex (b'+' ∷ hex_digit n ∷ []) ≡ done (some (n ∷ []))
unfolding decode_hex decode_pairs from_str_radix cons_byte starts_inside is_continuation
decode_hex-plus n h = ground (arith, digit_value-hex_digit n)

-- A text of four bytes whose second and third byte are one character makes the decoder panic,
-- whatever ASCII characters stand around it.
pub decode_hex-panic :
    (a c₁ c₂ b : ℕ)
    → a < 128
    → 194 ≤ c₁
    → 128 ≤ c₂
    → c₂ < 192
    → decode_hex (a ∷ c₁ ∷ c₂ ∷ b ∷ []) ≡ panic
unfolding decode_hex decode_pairs starts_inside is_continuation
decode_hex-panic a c₁ c₂ b ha h1 h2 h3 = ground arith
