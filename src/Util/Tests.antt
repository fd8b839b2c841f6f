-- ===== src/Util/Tests.antt =====
-- The hexadecimal texts of core/src/util.rs on concrete inputs.
use ankai.Prelude.{[], ◌∷◌, ◌≡◌, arith}
use ankai.Util.{decode_hex, panic}
use ankai.Util.RoundTrip.{decode_hex-panic}

-- An é between two digits.
decode_hex-panic_example : decode_hex (b'1' ∷ 195 ∷ 169 ∷ b'2' ∷ []) ≡ panic
decode_hex-panic_example =
    decode_hex-panic b'1' 195 169 b'2' (omega arith) (omega arith) (omega arith) (omega arith)
