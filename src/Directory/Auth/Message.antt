-- ===== src/Directory/Auth/Message.antt =====
-- The message that a device signs (server/directory/src/auth.rs), and its decimal timestamp.
use native.Mathlib.Nat.{pow-suc}
use ankai.Prelude.{
  ℕ, zero, suc, ◌+◌, ◌-◌, ◌*◌, ◌/◌, ◌%◌, ◌^◌, ◌<◌, ◌≤◌, String, utf8, true, false, Bool-cases, ◌==◌,
  ltb, leb, some, List, [], ◌∷◌, ◌++◌, All, ◌≡◌, refl, sym, ◌≢◌, ap, ◌∙◌, inl, inr, arith,
}
use ankai.Prelude.Int.{ℤ, pos, negsuc}
use ankai.Directory.Auth.{
  digits, print_i64, parse_digits, parse_i64, in_range, signed_digits, signing_message,
}
use ankai.Directory.Auth.Skew.{InI64}

parse_one :
    (d n k : ℕ) (out : List ℕ)
    → d < 10
    → n * 10 + d ≡ k
    → parse_digits ((b'0' + d) ∷ out) n ≡ parse_digits out k
unfolding parse_digits
parse_one d n k out h e =
    let low : leb b'0' (b'0' + d) ≡ true = ground arith in
    let high : leb (b'0' + d) b'9' ≡ true = ground arith in
    let value : n * 10 + (b'0' + d - b'0') ≡ k = omega arith in rw (low, high, value)

-- Reading the digits of `n` before `out` is reading `out` after `n`.
parse_digits-digits :
    (fuel n : ℕ) (out : List ℕ)
    → n < 10 ^ fuel
    → parse_digits (digits fuel n out) 0 ≡ parse_digits out n
unfolding digits
parse_digits-digits zero n out h = ap (parse_digits out) (omega arith)
parse_digits-digits (suc fuel) n out h = elim (Bool-cases (ltb n 10)) [
  | inl e ↦ rw e (parse_one n 0 n out (ground arith) (omega arith))
  | inr e ↦ rw e (
      parse_digits-digits fuel (n / 10) ((b'0' + n % 10) ∷ out)
        (let bound : n < 10 ^ fuel * 10 = rw pow-suc at h in omega arith)
      ∙ parse_one (n % 10) (n / 10) n out (omega arith) (omega arith))
]

abbrev Digit : ℕ → Type 0
Digit c = (b'0' ≤ c) × (c ≤ b'9')

-- Some digits.
abbrev Digits : List ℕ → Type 0
Digits [] = ⊥
Digits (c ∷ s) = Digit c × All Digit s

All-of_Digits : (s : List ℕ) → Digits s → All Digit s
All-of_Digits [] h = elim h [ ]
All-of_Digits (c ∷ s) h = h

digits-Digits : (fuel n : ℕ) (out : List ℕ) → Digits out → Digits (digits fuel n out)
unfolding digits
digits-Digits zero n out h = h
digits-Digits (suc fuel) n out h = elim (Bool-cases (ltb n 10)) [
  | inl e ↦ rw e ((omega arith, ground arith), All-of_Digits out h)
  | inr e ↦ rw e (
      digits-Digits fuel (n / 10) ((b'0' + n % 10) ∷ out)
        ((omega arith, omega arith), All-of_Digits out h))
]

some_digits : (fuel n : ℕ) → Digits (digits (suc fuel) n [])
unfolding digits
some_digits fuel n = elim (Bool-cases (ltb n 10)) [
  | inl e ↦ rw e ((omega arith, ground arith), tt)
  | inr e ↦
      rw e (digits-Digits fuel (n / 10) ((b'0' + n % 10) ∷ []) ((omega arith, omega arith), tt))
]

parse_unsigned : (s : List ℕ) → Digits s → parse_i64 s ≡ in_range false (parse_digits s 0)
unfolding parse_i64 signed_digits
parse_unsigned [] h = elim h [ ]
parse_unsigned (c ∷ s) h =
    let minus : (c == b'-') ≡ false = ground arith in
    let plus : (c == b'+') ≡ false = ground arith in rw (minus, plus)

parse_negative : (s : List ℕ) → Digits s → parse_i64 (b'-' ∷ s) ≡ in_range true (parse_digits s 0)
unfolding parse_i64 signed_digits
parse_negative [] h = elim h [ ]
parse_negative (c ∷ s) h = refl

-- An `i64` is read back from its decimal print.
pub parse_i64-print_i64 : (t : ℤ) → InI64 t → parse_i64 (print_i64 t) ≡ some t
unfolding print_i64 in_range parse_digits
parse_i64-print_i64 (pos n) h =
    parse_unsigned (digits 20 n []) (some_digits 19 n)
    ∙ ap (in_range false) (parse_digits-digits 20 n [] (omega arith))
    ∙ ground arith
parse_i64-print_i64 (negsuc n) h =
    parse_negative (digits 20 (suc n) []) (some_digits 19 (suc n))
    ∙ ap (in_range true) (parse_digits-digits 20 (suc n) [] (omega arith))
    ∙ ground arith

print_i64-injective : (t u : ℤ) → InI64 t → InI64 u → print_i64 t ≡ print_i64 u → t ≡ u
print_i64-injective t u h k e =
    let read : some t ≡ some u =
      sym (parse_i64-print_i64 t h) ∙ ap parse_i64 e ∙ parse_i64-print_i64 u k in
    cc

abbrev pub OneLine : List ℕ → Type 0
OneLine = All (λ c. c ≢ b'\n')

All-OneLine : (s : List ℕ) → All Digit s → OneLine s
All-OneLine [] h = tt
All-OneLine (c ∷ s) h = ((λ e. absurd (omega arith)), All-OneLine s h.1)

print_i64-OneLine : (t : ℤ) → OneLine (print_i64 t)
unfolding print_i64
print_i64-OneLine (pos n) = All-OneLine _ (All-of_Digits _ (some_digits 19 n))
print_i64-OneLine (negsuc n) =
    ((λ e. absurd (omega arith)), All-OneLine _ (All-of_Digits _ (some_digits 19 (suc n))))

-- A line and what follows it.
line_injective :
    (xs ys r s : List ℕ)
    → OneLine xs
    → OneLine ys
    → xs ++ (b'\n' ∷ r) ≡ ys ++ (b'\n' ∷ s)
    → (xs ≡ ys) × (r ≡ s)
line_injective [] [] r s h k e = (refl, cc)
line_injective [] (y ∷ ys) r s h k e = absurd (k.0 (cc))
line_injective (x ∷ xs) [] r s h k e = absurd (h.0 (cc))
line_injective (x ∷ xs) (y ∷ ys) r s h k e =
    let (same, rest) = line_injective xs ys r s h.1 k.1 (cc) in (cc, rest)

-- A signature is bound to every part of the request: two messages are equal only where the
-- method, the path, the device id, the timestamp and the body are, provided that no method, path
-- or id holds a newline.
pub signing_message-injective :
    (m p d m' p' d' : String) (t t' : ℤ) (body body' : List ℕ)
    → OneLine (utf8 m) × OneLine (utf8 p) × OneLine (utf8 d)
    → OneLine (utf8 m') × OneLine (utf8 p') × OneLine (utf8 d')
    → InI64 t
    → InI64 t'
    → signing_message m p d t body ≡ signing_message m' p' d' t' body'
    → (utf8 m ≡ utf8 m') × (utf8 p ≡ utf8 p') × (utf8 d ≡ utf8 d') × (t ≡ t') × (body ≡ body')
unfolding signing_message
signing_message-injective m p d m' p' d' t t' body body' (lm, lp, ld) (lm', lp', ld') h h' e =
    let (same_m, e1) = line_injective _ _ _ _ lm lm' e in
    let (same_p, e2) = line_injective _ _ _ _ lp lp' e1 in
    let (same_d, e3) = line_injective _ _ _ _ ld ld' e2 in
    let (same_t, same_body) =
      line_injective _ _ _ _ (print_i64-OneLine t) (print_i64-OneLine t') e3 in
    (same_m, same_p, same_d, print_i64-injective t t' h h' same_t, same_body)
