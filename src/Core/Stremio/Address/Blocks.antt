-- ===== src/Core/Stremio/Address/Blocks.antt =====
-- The IPv4 addresses that core/src/stremio.rs refuses, as blocks of 32-bit numbers.
use ankai.Prelude.{
  ℕ, suc, ◌+◌, ◌*◌, ◌<◌, Bool, false, ◌&&◌, ◌||◌, ◌==◌, leb, ltb, List, [], ◌∷◌, ◌≡◌, arith,
}
use native.Mathlib.Decide.{ℕ_discrete}
use ankai.Core.Stremio.Address.{Ipv4Addr, is_non_public_ipv4}

-- The number of an address.
abbrev pub to_bits : Ipv4Addr → ℕ
to_bits ip = ip.a * 16777216 + ip.b * 65536 + ip.c * 256 + ip.d

-- The first address of a block, and how many it has.
abbrev pub non_public_blocks : List (ℕ × ℕ)
non_public_blocks =
    -- 0.0.0.0/8, 10.0.0.0/8, 100.64.0.0/10 and 127.0.0.0/8
    (0, 16777216)
    ∷ (167772160, 16777216)
    ∷ (1681915904, 4194304)
    ∷ (2130706432, 16777216)
    -- 169.254.0.0/16, 172.16.0.0/12, 192.0.0.0/16 and 192.168.0.0/16
    ∷ (2851995648, 65536)
    ∷ (2886729728, 1048576)
    ∷ (3221225472, 65536)
    ∷ (3232235520, 65536)
    -- 198.18.0.0/15, 198.51.100.0/24 and 203.0.113.0/24
    ∷ (3323068416, 131072)
    ∷ (3325256704, 256)
    ∷ (3405803776, 256)
    -- 224.0.0.0/4 and 240.0.0.0/4
    ∷ (3758096384, 268435456)
    ∷ (4026531840, 268435456)
    ∷ []

abbrev pub in_block : List (ℕ × ℕ) → ℕ → Bool
in_block [] n = false
in_block ((first, size) ∷ blocks) n = leb first n && ltb n (first + size) || in_block blocks n

-- The blocks of a first byte, of a second byte and of a third byte.
module _ (ip : Ipv4Addr) (b : ip.b < 256) (c : ip.c < 256) (d : ip.d < 256) where
  first_byte :
      (lo hi : ℕ)
      → (leb (lo * 16777216) (to_bits ip) && ltb (to_bits ip) (suc hi * 16777216))
        ≡ (leb lo ip.a && leb ip.a hi)
  first_byte lo hi = ground arith

  second_byte :
      (k lo hi : ℕ)
      → hi < 256
      → (leb (k * 16777216 + lo * 65536) (to_bits ip)
          && ltb (to_bits ip) (k * 16777216 + suc hi * 65536))
        ≡ (ip.a == k && (leb lo ip.b && leb ip.b hi))
  second_byte k lo hi h = ground arith

  third_byte :
      (j k m : ℕ)
      → k < 256
      → m < 256
      → (leb (j * 16777216 + k * 65536 + m * 256) (to_bits ip)
          && ltb (to_bits ip) (j * 16777216 + k * 65536 + suc m * 256))
        ≡ (ip.a == j && (ip.b == k && ip.c == m))
  third_byte j k m h i = ground arith

-- The tests of the bytes, of the code and of the blocks.
abbrev in_bytes : (a b c : ℕ) → Bool
in_bytes a b c =
    leb 0 a && leb a 0
    || (leb 10 a && leb a 10
        || (a == 100 && (leb 64 b && leb b 127)
            || (leb 127 a && leb a 127
                || (a == 169 && (leb 254 b && leb b 254)
                    || (a == 172 && (leb 16 b && leb b 31)
                        || (a == 192 && (leb 0 b && leb b 0)
                            || (a == 192 && (leb 168 b && leb b 168)
                                || (a == 198 && (leb 18 b && leb b 19)
                                    || (a == 198 && (b == 51 && c == 100)
                                        || (a == 203 && (b == 0 && c == 113)
                                            || (leb 224 a && leb a 239
                                                || (leb 240 a && leb a 255 || false))))))))))))

is_not : (m n : ℕ) → ¬ (m ≡ n) → (m == n) ≡ false
is_not m n h = ground arith

is_non_public_ipv4-in_bytes :
    (ip : Ipv4Addr) → ip.a < 256 → is_non_public_ipv4 ip ≡ in_bytes ip.a ip.b ip.c
unfolding is_non_public_ipv4
is_non_public_ipv4-in_bytes ip h = elim (ℕ_discrete ip.a 198) [
  | yes e ↦ rw e (ground arith)
  | no n198 ↦ elim (ℕ_discrete ip.a 192) [
    | yes e ↦ rw e (ground arith)
    | no n192 ↦ elim (ℕ_discrete ip.a 172) [
      | yes e ↦ rw e (ground arith)
      | no n172 ↦ elim (ℕ_discrete ip.a 203) [
        | yes e ↦ rw e (ground arith)
        | no n203 ↦ elim (ℕ_discrete ip.a 100) [
          | yes e ↦ rw e (ground arith)
          | no n100 ↦ elim (ℕ_discrete ip.a 169) [
            | yes e ↦ rw e (ground arith)
            | no n169 ↦
                rw
                  (
                    is_not ip.a 198 n198,
                    is_not ip.a 192 n192,
                    is_not ip.a 172 n172,
                    is_not ip.a 203 n203,
                    is_not ip.a 100 n100,
                    is_not ip.a 169 n169,
                  )
                  (ground arith)
          ]
        ]
      ]
    ]
  ]
]

-- An address of four bytes is refused exactly where its 32-bit number lies in one of the thirteen blocks.
pub is_non_public_ipv4-in_block :
    (ip : Ipv4Addr)
    → ip.a < 256
    → ip.b < 256
    → ip.c < 256
    → ip.d < 256
    → is_non_public_ipv4 ip ≡ in_block non_public_blocks (to_bits ip)
unfolding is_non_public_ipv4
is_non_public_ipv4-in_block ip a b c d =
    rw
      (
        first_byte ip b c d 0 0,
        first_byte ip b c d 10 10,
        second_byte ip b c d 100 64 127 (omega arith),
        first_byte ip b c d 127 127,
        second_byte ip b c d 169 254 254 (omega arith),
        second_byte ip b c d 172 16 31 (omega arith),
        second_byte ip b c d 192 0 0 (omega arith),
        second_byte ip b c d 192 168 168 (omega arith),
        second_byte ip b c d 198 18 19 (omega arith),
        third_byte ip b c d 198 51 100 (omega arith) (omega arith),
        third_byte ip b c d 203 0 113 (omega arith) (omega arith),
        first_byte ip b c d 224 239,
        first_byte ip b c d 240 255,
      )
      (is_non_public_ipv4-in_bytes ip a)
