-- ===== src/Util.antt =====
-- core/src/util.rs: hexadecimal text. A text is the list of its UTF-8 bytes here, since the code
-- takes its length and its slices in bytes.
pub mod RoundTrip
mod Tests
use ankai.Prelude.{
  ℕ, zero, suc, ◌+◌, ◌-◌, ◌*◌, ◌/◌, ◌%◌, String, Bool, true, false, ◌&&◌, ◌||◌, ◌==◌, leb, length,
  Option, none, some, List, [], ◌∷◌, ◌++◌, if◌then◌else◌,
}
use mathlib.Core.Option
use Prim.Native.Char.{Char, nul}
use Prim.Native.String.{◌∷◌ as cons, [] as nil}

unfoldable pub hex_digit : ℕ → ℕ
hex_digit n = if leb n 9 then b'0' + n else b'a' + (n - 10)

-- `format!("{b:02x}")` of a byte.
unfoldable pub encode_byte : ℕ → List ℕ
encode_byte b = hex_digit (b / 16) ∷ hex_digit (b % 16) ∷ []

unfoldable pub encode_hex : List ℕ → List ℕ
encode_hex [] = []
encode_hex (b ∷ bytes) = encode_byte b ++ encode_hex bytes

-- `char::to_digit(16)`.
unfoldable pub digit_value : ℕ → Option ℕ
digit_value c =
    if leb b'0' c && leb c b'9'
    then some (c - b'0')
    else if leb b'a' c && leb c b'f'
    then some (c - b'a' + 10)
    else if leb b'A' c && leb c b'F'
    then some (c - b'A' + 10)
    else none

unfoldable pub two_digits : Option ℕ → Option ℕ → Option ℕ
two_digits (some h) (some l) = some (16 * h + l)
two_digits _ _ = none

-- `u8::from_str_radix(…, 16).ok()` of two bytes: a leading plus is allowed, and both a lone sign and
-- any other character are not.
unfoldable pub from_str_radix : ℕ → ℕ → Option ℕ
from_str_radix a b = if a == b'+' then digit_value b else two_digits (digit_value a) (digit_value b)

-- `&hex[i..i + 2]` panics where an end lies inside a character.
pub data Decoded : Type 0 where
  done : Option (List ℕ) → Decoded
  panic : Decoded

-- A byte that does not begin a character.
unfoldable pub is_continuation : ℕ → Bool
is_continuation c = leb 128 c && leb c 191

unfoldable pub starts_inside : List ℕ → Bool
starts_inside [] = false
starts_inside (c ∷ _) = is_continuation c

unfoldable pub cons_byte : ℕ → Decoded → Decoded
cons_byte v (done bytes) = done (Option.map (◌∷◌ v) bytes)
cons_byte v panic = panic

-- The loop over the slices, which ends at the first that is no number.
unfoldable pub decode_pairs : List ℕ → Decoded
decode_pairs [] = done (some [])
decode_pairs (a ∷ []) = done none
decode_pairs (a ∷ b ∷ rest) =
    let later = decode_pairs rest in
    if is_continuation a || starts_inside rest
    then panic
    else elim (from_str_radix a b) [ none ↦ done none | some v ↦ cons_byte v later ]

unfoldable pub decode_hex : List ℕ → Decoded
decode_hex hex = if length hex % 2 == 0 then decode_pairs hex else done none

-- The character at a place of a text.
abbrev char_at : ℕ → String → Char
char_at n nil = nul
char_at zero (cons c s) = c
char_at (suc n) (cons c s) = char_at n s

abbrev hex_char : ℕ → Char
hex_char n = char_at n "0123456789abcdef"

-- `encode_hex`, as a text.
unfoldable pub encode_hex_text : List ℕ → String
encode_hex_text [] = nil
encode_hex_text (b ∷ bytes) =
    cons (hex_char (b / 16)) (cons (hex_char (b % 16)) (encode_hex_text bytes))
