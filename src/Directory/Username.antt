-- ===== src/Directory/Username.antt =====
-- server/directory/src/username.rs: which usernames are accepted.
use ankai.Prelude.{
  ℕ, String, codes, Bool, true, ◌&&◌, ◌||◌, ◌==◌, leb, length, all, All, if◌then◌else◌, ◌≡◌, refl,
  List, [], ◌∷◌, Bool-cases, inl, inr, ◌≤◌, ◌⊎◌, arith,
}
use ankai.Prelude.Results.{Result, ok, err}

abbrev pub min_len : ℕ
min_len = 3

abbrev pub max_len : ℕ
max_len = 20

pub data UsernameError : Type 0 where
  invalid : String → UsernameError
  already_claimed : UsernameError

abbrev is_ascii_lowercase : ℕ → Bool
is_ascii_lowercase c = leb b'a' c && leb c b'z'

abbrev is_ascii_digit : ℕ → Bool
is_ascii_digit c = leb b'0' c && leb c b'9'

abbrev char_ok : ℕ → Bool
char_ok c = is_ascii_lowercase c || is_ascii_digit c || c == b'_'

abbrev len_ok : ℕ → Bool
len_ok n = leb min_len n && leb n max_len

unfoldable pub validate : String → Result UsernameError (Unit {0})
validate raw =
    if len_ok (length (codes raw)) && all char_ok (codes raw) then ok tt else err (invalid raw)

-- `^[a-z0-9_]{3,20}$`, of the characters of a text.
abbrev pub Allowed : ℕ → Type 0
Allowed c = ((b'a' ≤ c) × (c ≤ b'z')) ⊎ (((b'0' ≤ c) × (c ≤ b'9')) ⊎ (c ≡ b'_'))

pub record IsUsername (s : String) : Type 0 where
  pub long_enough : min_len ≤ length (codes s)
  pub short_enough : length (codes s) ≤ max_len
  pub allowed : All Allowed (codes s)

all-Allowed : (cs : List ℕ) → all char_ok cs ≡ true → All Allowed cs
all-Allowed [] h = tt
all-Allowed (c ∷ cs) h = ground (arith, all-Allowed cs)

Allowed-all : (cs : List ℕ) → All Allowed cs → all char_ok cs ≡ true
Allowed-all [] h = refl
Allowed-all (c ∷ cs) h = ground (arith, Allowed-all cs)

-- Every text is either accepted, and has 3 to 20 characters, each a lowercase ASCII letter, a digit
-- or an underscore, or it is refused with that text, and is no such name.
pub validate_cases :
    (raw : String)
    → ((validate raw ≡ ok tt) × IsUsername raw)
      ⊎ ((validate raw ≡ err (invalid raw)) × (¬ IsUsername raw))
unfolding validate
validate_cases raw = elim (Bool-cases (len_ok (length (codes raw)) && all char_ok (codes raw))) [
  | inl e ↦ inl (
    rw e,
    record {
      long_enough = ground arith;
      short_enough = ground arith;
      allowed = all-Allowed (codes raw) (ground arith);
    },
  )
  | inr e ↦ inr (rw e, λ v. ground (arith, Allowed-all (codes raw) v.allowed))
]
