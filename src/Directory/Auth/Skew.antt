-- ===== src/Directory/Auth/Skew.antt =====
-- The freshness test of server/directory/src/auth.rs.
use ankai.Prelude.{ℕ, ◌+◌, ◌^◌, ◌<◌, ◌≤◌, false, ◌≡◌, ◌⊎◌, ◌↔◌, arith}
use ankai.Prelude.Int.{ℤ, pos, negsuc, ◌+ℤ◌, ◌-ℤ◌, ◌≤ℤ◌, pos_part, neg_part}
use ankai.Directory.Auth.{is_stale, abs_i64, wrap_i64}

-- The range of an `i64`.
abbrev pub InI64 : ℤ → Type 0
InI64 z = (pos_part z < 2 ^ 63) × (neg_part z ≤ 2 ^ 63)

-- Before the year 146 thousand million the test accepts exactly the timestamps at most 300
-- seconds from the clock, and one more: the timestamp 2 ^ 63 seconds before the clock, whose distance
-- has no absolute value among the `i64`.
pub is_stale_iff :
    (t : ℤ) (now : ℕ)
    → InI64 t
    → now < 2 ^ 62
    → (is_stale t (pos now) ≡ false)
      ↔ (((t ≤ℤ pos (now + 300)) × (pos now ≤ℤ t +ℤ pos 300)) ⊎ (t ≡ pos now -ℤ pos (2 ^ 63)))
unfolding is_stale abs_i64 wrap_i64 ◌+ℤ◌ ◌-ℤ◌
is_stale_iff (pos t) now r h = (λ e. ground arith, λ e. ground arith)
is_stale_iff (negsuc t) now r h = (λ e. ground arith, λ e. ground arith)
