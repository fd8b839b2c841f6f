-- ===== src/Core/Stremio/Address/Redirects.antt =====
-- Where the redirects that core/src/stremio.rs follows lead.
use ankai.Prelude.{
  suc, ◌≤◌, String, true, false, length, length-append, All, Option, Option-cases, none, some, List,
  [], ◌∷◌, ◌++◌, ◌≡◌, ◌⊎◌, ◌↔◌, inl, inr, arith,
}
use ankai.Prelude.Results.{ok, Result-cases}
use ankai.Core.Stremio.Address.{
  IpAddr, Url, max_url_length, max_redirects, same_origin, is_non_public_ip,
  is_obviously_local_name, validate_public_https_url, follow, on_redirect, check_host,
}

module _ (parse_ip : String → Option IpAddr) where
  -- A host that is a public address, or a name that does not look local.
  abbrev pub PublicHost : String → Type 0
  PublicHost host =
      ((ip : IpAddr) × (parse_ip host ≡ some ip) × (is_non_public_ip ip ≡ false))
      ⊎ ((parse_ip host ≡ none) × (is_obviously_local_name host ≡ false))

  pub record IsPublic (url : Url) : Type 0 where
    pub short : url.len ≤ max_url_length
    pub https : url.scheme ≡ "https"
    pub no_username : url.username ≡ ""
    pub no_password : url.password ≡ none
    pub host : String
    pub host_is : url.host_str ≡ some host
    pub public : PublicHost host

  check_host-PublicHost : (host : String) → check_host parse_ip host ≡ ok tt → PublicHost host
  check_host-PublicHost host h = elim (Option-cases (parse_ip host)) [
    | inl e ↦ inr (e, ground arith)
    | inr (ip, e) ↦ inl (ip, e, ground arith)
  ]

  PublicHost-check_host : (host : String) → PublicHost host → check_host parse_ip host ≡ ok tt
  PublicHost-check_host host (inl (ip, e, h)) = ground (arith, e, h)
  PublicHost-check_host host (inr (e, h)) = ground (arith, e, h)

  -- A URL is accepted exactly where it is public: at most 8192 bytes long, HTTPS, with no credentials, and
  -- with a host that is a public address or a name that does not look local.
  pub validate_public_https_url-IsPublic :
      (url : Url) → (validate_public_https_url parse_ip url ≡ ok tt) ↔ IsPublic url
  unfolding validate_public_https_url
  validate_public_https_url-IsPublic url = (
    (λ h. elim (Option-cases url.host_str) [
      | inl e ↦ absurd (ground arith)
      | inr (host, e) ↦ record {
        short = ground arith;
        https = ground arith;
        no_username = ground arith;
        no_password = ground arith;
        host = host;
        host_is = e;
        public = check_host-PublicHost host (ground arith);
      }
    ]),
    λ p. ground (
      arith,
      p.short,
      p.https,
      p.no_username,
      p.no_password,
      p.host_is,
      PublicHost-check_host p.host p.public,
    ),
  )

  -- The redirects that one fetch follows, after its first URL.
  pub data Followed (initial : Url) : List Url → Type 0 where
    start : Followed initial []
    hop :
        (redirects : List Url) (next : Url)
        → Followed initial redirects
        → on_redirect parse_ip (initial ∷ redirects) next ≡ follow
        → Followed initial (redirects ++ next ∷ [])

  -- What it takes to follow a redirect.
  on_redirect-follow :
      (initial next : Url) (redirects : List Url)
      → on_redirect parse_ip (initial ∷ redirects) next ≡ follow
      → (suc (length redirects) ≤ max_redirects)
        × (same_origin initial next ≡ true)
        × (validate_public_https_url parse_ip next ≡ ok tt)
  unfolding on_redirect
  on_redirect-follow initial next redirects h =
      elim (Result-cases (validate_public_https_url parse_ip next)) [
        | inl (x, e) ↦ absurd (ground arith)
        | inr (u, e) ↦ (ground arith, ground arith, e)
      ]

  All-append {κ} :
      (P : Url → Type κ) (urls : List Url) (next : Url)
      → All P urls
      → P next
      → All P (urls ++ next ∷ [])
  All-append P [] next a p = (p, tt)
  All-append P (u ∷ urls) next a p = (a.0, All-append P urls next a.1 p)

  -- However an add-on's server redirects, at most three redirects of a fetch are followed, and each leads to
  -- a public URL with the scheme, the host and the port of the first.
  pub Followed-IsPublic :
      (initial : Url) (redirects : List Url)
      → Followed initial redirects
      → (length redirects ≤ max_redirects)
        × All (λ url. (same_origin initial url ≡ true) × IsPublic url) redirects
  Followed-IsPublic initial _ start = (omega arith, tt)
  Followed-IsPublic initial _ (hop redirects next before h) =
      let earlier = Followed-IsPublic initial redirects before in
      let this = on_redirect-follow initial next redirects h in
      (
        omega (arith, this.0, length-append redirects (next ∷ [])),
        All-append (λ url. (same_origin initial url ≡ true) × IsPublic url) redirects next earlier.1
            (this.1, (validate_public_https_url-IsPublic next).0 this.2),
      )
