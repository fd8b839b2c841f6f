-- ===== src/Core/Stremio/Address.antt =====
-- Which URLs core/src/stremio.rs is willing to fetch: public HTTPS without credentials. A URL is what
-- reqwest's parser makes of a text, and `IpAddr::from_str` is a parameter. Messages of errors are left out.
pub mod Blocks
pub mod Redirects
use ankai.Prelude.{
  ℕ, ◌+◌, ◌*◌, ◌/◌, ◌%◌, String, string_discrete, codes, same_codes, to_ascii_lowercase, Bool, true,
  false, not, ◌&&◌, ◌||◌, ◌==◌, leb, ltb, length, map, keep, Option, none, some, List, [], ◌∷◌,
  if◌then◌else◌,
}
use mathlib.Core.Option
use ankai.Prelude.Results.{Result, ok, err, ◌>>=◌, ◌>>◌, guard, ok_or}
use ankai.Core.Store.{Error, stremio}

-- Four bytes, and eight numbers of 16 bits.
pub record Ipv4Addr : Type 0 where
  pub a : ℕ
  pub b : ℕ
  pub c : ℕ
  pub d : ℕ

pub record Ipv6Addr : Type 0 where
  pub s0 : ℕ
  pub s1 : ℕ
  pub s2 : ℕ
  pub s3 : ℕ
  pub s4 : ℕ
  pub s5 : ℕ
  pub s6 : ℕ
  pub s7 : ℕ

pub data IpAddr : Type 0 where
  v4 : Ipv4Addr → IpAddr
  v6 : Ipv6Addr → IpAddr

-- Of a parsed URL what the policy reads; `len` is the number of its bytes.
pub record Url : Type 0 where
  pub len : ℕ
  pub scheme : String
  pub username : String
  pub password : Option String
  pub host_str : Option String
  pub port_or_known_default : Option ℕ
  pub path : String

abbrev pub max_url_length : ℕ
max_url_length = 8 * 1024

abbrev pub max_redirects : ℕ
max_redirects = 3

abbrev pub is_text : String → String → Bool
is_text s t = elim (string_discrete s t) [ yes _ ↦ true | no _ ↦ false ]

abbrev same_option : Option String → Option String → Bool
same_option none none = true
same_option (some s) (some t) = is_text s t
same_option _ _ = false

abbrev same_port : Option ℕ → Option ℕ → Bool
same_port none none = true
same_port (some m) (some n) = m == n
same_port _ _ = false

unfoldable pub same_origin : (left right : Url) → Bool
same_origin left right =
    is_text left.scheme right.scheme
    && same_option left.host_str right.host_str
    && same_port left.port_or_known_default right.port_or_known_default

-- `trim_end_matches` of a character.
unfoldable pub trim_end_matches : ℕ → List ℕ → List ℕ
trim_end_matches x [] = []
trim_end_matches x (c ∷ cs) = elim (trim_end_matches x cs) [
  | [] ↦ if c == x then [] else c ∷ []
  | d ∷ ds ↦ c ∷ d ∷ ds
]

unfoldable pub has_dot : List ℕ → Bool
has_dot [] = false
has_dot (c ∷ cs) = c == b'.' || has_dot cs

unfoldable pub ends_with : List ℕ → List ℕ → Bool
ends_with suffix [] = same_codes suffix []
ends_with suffix (c ∷ cs) = same_codes suffix (c ∷ cs) || ends_with suffix cs

unfoldable pub any_suffix : List String → List ℕ → Bool
any_suffix [] host = false
any_suffix (suffix ∷ suffixes) host = ends_with (codes suffix) host || any_suffix suffixes host

abbrev local_suffixes : List String
local_suffixes =
    ".localhost" ∷ ".local" ∷ ".localdomain" ∷ ".lan" ∷ ".home" ∷ ".internal" ∷ ".intranet"
    ∷ ".test" ∷ ".invalid" ∷ []

unfoldable pub is_obviously_local_name : String → Bool
is_obviously_local_name text =
    let host : List ℕ = map to_ascii_lowercase (trim_end_matches b'.' (codes text)) in
    not (has_dot host) || (same_codes host (codes "localhost") || any_suffix local_suffixes host)

-- The standard library's classes of IPv4 addresses.
abbrev is_private : Ipv4Addr → Bool
is_private ip =
    ip.a == 10 || (ip.a == 172 && (leb 16 ip.b && leb ip.b 31) || ip.a == 192 && ip.b == 168)

abbrev is_documentation : Ipv4Addr → Bool
is_documentation ip =
    ip.a == 192 && (ip.b == 0 && ip.c == 2)
    || (ip.a == 198 && (ip.b == 51 && ip.c == 100) || ip.a == 203 && (ip.b == 0 && ip.c == 113))

abbrev is_unspecified : Ipv4Addr → Bool
is_unspecified ip = ip.a == 0 && (ip.b == 0 && (ip.c == 0 && ip.d == 0))

abbrev is_broadcast : Ipv4Addr → Bool
is_broadcast ip = ip.a == 255 && (ip.b == 255 && (ip.c == 255 && ip.d == 255))

unfoldable pub is_non_public_ipv4 : Ipv4Addr → Bool
is_non_public_ipv4 ip =
    is_unspecified ip
    || (ip.a == 127
        || (is_private ip
            || (ip.a == 169 && ip.b == 254
                || (leb 224 ip.a && leb ip.a 239
                    || (is_broadcast ip
                        || (is_documentation ip
                            || (ip.a == 0
                                || (ip.a == 100 && (leb 64 ip.b && leb ip.b 127)
                                    || (ip.a == 192 && ip.b == 0
                                        || (ip.a == 198 && (leb 18 ip.b && leb ip.b 19)
                                            || leb 240 ip.a))))))))))

-- `Ipv6Addr::to_ipv4`: of the compatible and of the mapped addresses.
unfoldable pub to_ipv4 : Ipv6Addr → Option Ipv4Addr
to_ipv4 ip =
    if ip.s0 == 0
      && (ip.s1 == 0
          && (ip.s2 == 0 && (ip.s3 == 0 && (ip.s4 == 0 && (ip.s5 == 0 || ip.s5 == 65535)))))
    then some (record { a = ip.s6 / 256; b = ip.s6 % 256; c = ip.s7 / 256; d = ip.s7 % 256 })
    else none

abbrev starts_with_zeros : Ipv6Addr → Bool
starts_with_zeros ip =
    ip.s0 == 0
    && (ip.s1 == 0 && (ip.s2 == 0 && (ip.s3 == 0 && (ip.s4 == 0 && (ip.s5 == 0 && ip.s6 == 0)))))

-- A mask of the high bits of 16, compared, is a division.
unfoldable pub is_non_public_ipv6 : Ipv6Addr → Bool
is_non_public_ipv6 ip =
    starts_with_zeros ip && ip.s7 == 0
    || (starts_with_zeros ip && ip.s7 == 1
        || (ip.s0 / 256 == 255
            || (ip.s0 / 512 == 126
                || (ip.s0 / 64 == 1018
                    || (ip.s0 / 64 == 1019
                        || (ip.s0 == 8193 && ip.s1 == 3512 || elim (to_ipv4 ip) [
                          | none ↦ false
                          | some ip ↦ is_non_public_ipv4 ip
                        ]))))))

unfoldable pub is_non_public_ip : IpAddr → Bool
is_non_public_ip (v4 ip) = is_non_public_ipv4 ip
is_non_public_ip (v6 ip) = is_non_public_ipv6 ip

-- What `redirect::Policy::custom` answers.
pub data Redirect : Type 0 where
  follow : Redirect
  error : Redirect

module _ (parse_ip : String → Option IpAddr) where
  abbrev check_host : String → Result Error (Unit {0})
  check_host host = elim (parse_ip host) [
    | some ip ↦ guard (not (is_non_public_ip ip)) stremio
    | none ↦ guard (not (is_obviously_local_name host)) stremio
  ]

  unfoldable pub validate_public_https_url : Url → Result Error (Unit {0})
  validate_public_https_url url = do
    guard (leb url.len max_url_length) stremio
    guard (is_text url.scheme "https") stremio
    guard (is_text url.username "") stremio
    elim url.password [ none ↦ ok tt | some _ ↦ err stremio ]
    host ← ok_or url.host_str stremio
    check_host host

  -- The policy of redirects, of the requests made so far, the first one first, and the next URL.
  unfoldable pub on_redirect : (previous : List Url) → Url → Redirect
  on_redirect [] next = error
  on_redirect (initial ∷ previous) next =
      if ltb max_redirects (length (initial ∷ previous))
      then error
      else if not (same_origin initial next)
      then error
      else elim (validate_public_https_url next) [ err _ ↦ error | ok _ ↦ follow ]

-- `PublicDnsResolver`, of the addresses that the lookup gives.
unfoldable pub resolve : List IpAddr → Option (List IpAddr)
resolve found =
    let addresses = keep (λ address. not (is_non_public_ip address)) found in
    elim addresses [ [] ↦ none | a ∷ rest ↦ some (a ∷ rest) ]
