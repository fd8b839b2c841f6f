-- ===== src/Core/Stremio/Streams/Targets.antt =====
-- What core/src/stremio.rs lets the player have of a stream.
use ankai.Prelude.{
  ◌≤◌, String, Bool, true, false, length, utf8, Option, Option-cases, none, some, List, [], ◌∷◌,
  ◌++◌, ◌≡◌, refl, ◌⊎◌, inl, inr, arith,
}
use ankai.Prelude.Results.{Result-cases, ok}
use ankai.Core.Stremio.Address.{IpAddr, Url}
use ankai.Core.Stremio.Address.Redirects.{IsPublic, validate_public_https_url-IsPublic}
use ankai.Core.Stremio.Checks.{validate_string, is_blank}
use ankai.Core.Stremio.Items.{Stream}
use ankai.Core.Stremio.Streams.{
  StreamTarget, direct_url, you_tube, external_url, bit_torrent, nzb, rar, zip, seven_zip, tgz, tar,
  StreamSource, direct, bit_torrent_source, from_option, from_archive, targets, target, only,
  source_of, source,
}

-- The stream has no target but, perhaps, its URL and its torrent.
pub record NoOther (s : Stream) : Type 0 where
  pub yt_id : s.yt_id ≡ none
  pub nzb_url : s.nzb_url ≡ none
  pub rar_urls : s.rar_urls ≡ []
  pub zip_urls : s.zip_urls ≡ []
  pub seven_zip_urls : s.seven_zip_urls ≡ []
  pub tgz_urls : s.tgz_urls ≡ []
  pub tar_urls : s.tar_urls ≡ []
  pub external_url : s.external_url ≡ none

append-one :
    (xs ys : List StreamTarget) (t : StreamTarget)
    → xs ++ ys ≡ t ∷ []
    → ((xs ≡ t ∷ []) × (ys ≡ [])) ⊎ ((xs ≡ []) × (ys ≡ t ∷ []))
append-one [] ys t h = inr (refl, h)
append-one (x ∷ []) ys t h = inl (ground arith, ground arith)
append-one (x ∷ y ∷ xs) ys t h = absurd (ground arith)

only-one : (l : List StreamTarget) (t : StreamTarget) → only l ≡ ok t → l ≡ t ∷ []
only-one [] t h = absurd (cc)
only-one (x ∷ []) t h = ground arith
only-one (x ∷ y ∷ l) t h = absurd (cc)

-- After the URL, the YouTube id and the torrent.
abbrev others : Stream → List StreamTarget
others s =
    from_option s.nzb_url (λ url. nzb url s.servers)
    ++ (from_archive s.rar_urls rar
        ++ (from_archive s.zip_urls zip
            ++ (from_archive s.seven_zip_urls seven_zip
                ++ (from_archive s.tgz_urls tgz
                    ++ (from_archive s.tar_urls tar ++ from_option s.external_url external_url)))))

others-NoOther : (s : Stream) → s.yt_id ≡ none → others s ≡ [] → NoOther s
others-NoOther s y h = record {
  yt_id = y;
  nzb_url = ground arith;
  rar_urls = ground arith;
  zip_urls = ground arith;
  seven_zip_urls = ground arith;
  tgz_urls = ground arith;
  tar_urls = ground arith;
  external_url = ground arith;
}

abbrev is_playable : StreamTarget → Bool
is_playable (direct_url u) = true
is_playable (bit_torrent hash file_idx sources) = true
is_playable _ = false

others-one : (s : Stream) (t : StreamTarget) → others s ≡ t ∷ [] → is_playable t ≡ false
others-one s t h = ground arith

-- What a playable target leaves of the fields.
targets-one :
    (s : Stream) (t : StreamTarget)
    → is_playable t ≡ true
    → targets s ≡ t ∷ []
    → NoOther s
      × (((s.info_hash ≡ none) × (from_option s.url direct_url ≡ t ∷ []))
          ⊎ ((s.url ≡ none)
              × (from_option s.info_hash (λ hash. bit_torrent hash s.file_idx s.sources) ≡ t ∷ [])))
unfolding targets
targets-one s t p one =
    elim (append-one (from_option s.url direct_url)
      (from_option s.yt_id you_tube
        ++ (from_option s.info_hash (λ hash. bit_torrent hash s.file_idx s.sources) ++ others s))
      t one) [
        | inl (a, b) ↦ (others-NoOther s (ground arith) (ground arith), inl (ground arith, a))
        | inr (a, b) ↦
            elim (append-one (from_option s.yt_id you_tube)
              (from_option s.info_hash (λ hash. bit_torrent hash s.file_idx s.sources) ++ others s)
              t b) [
                | inl (c, d) ↦ absurd (ground arith)
                | inr (c, d) ↦
                    elim (append-one
                      (from_option s.info_hash (λ hash. bit_torrent hash s.file_idx s.sources))
                      (others s) t d) [
                        | inl (e, f) ↦ (others-NoOther s (ground arith) f, inr (ground arith, e))
                        | inr (e, f) ↦ absurd (ground (arith, others-one s t f))
                      ]
              ]
      ]

module _ (parse : String → Option Url) (parse_ip : String → Option IpAddr) where
  -- What the player may get of a stream: its URL, where that parses to a public one, or its torrent, under a
  -- hash that is not blank and at most 128 bytes long.
  abbrev pub FromStream : Stream → StreamSource → Type 0
  FromStream s (direct u) =
      (s.url ≡ some u)
      × (s.info_hash ≡ none)
      × ((url : Url) × (parse u ≡ some url) × IsPublic parse_ip url)
  FromStream s (bit_torrent_source hash file_idx sources) =
      (s.info_hash ≡ some hash)
      × (s.url ≡ none)
      × (s.file_idx ≡ file_idx)
      × (s.sources ≡ sources)
      × (is_blank hash ≡ false)
      × (length (utf8 hash) ≤ 128)

  from_target :
      (s : Stream) (t : StreamTarget) (src : StreamSource)
      → targets s ≡ t ∷ []
      → source_of parse parse_ip t ≡ ok src
      → NoOther s × FromStream s src
  unfolding validate_string
  from_target s (direct_url v) src one h = elim (Option-cases (parse v)) [
    | inl e ↦ absurd (ground arith)
    | inr (url, e) ↦
        let same : direct v ≡ src = ground arith in
        let left = targets-one s (direct_url v) refl one in
        (
          left.0,
          rw (← same) (
            ground (arith, left.1),
            ground (arith, left.1),
            (url, e, (validate_public_https_url-IsPublic parse_ip url).0 (ground arith)),
          ),
        )
  ]
  from_target s (bit_torrent hash file_idx sources) src one h =
      let same : bit_torrent_source hash file_idx sources ≡ src = ground arith in
      let left = targets-one s (bit_torrent hash file_idx sources) refl one in
      (
        left.0,
        rw (← same) (
          ground (arith, left.1),
          ground (arith, left.1),
          ground (arith, left.1),
          ground (arith, left.1),
          ground arith,
          ground arith,
        ),
      )
  from_target s _ src one h = absurd (cc)

  -- A source that the player gets is the stream's only target: its URL, which parses to a public one, or its
  -- torrent, with a hash that is not blank and at most 128 bytes long.
  pub source-FromStream :
      (s : Stream) (src : StreamSource)
      → source parse parse_ip s ≡ ok src
      → NoOther s × FromStream s src
  unfolding source target
  source-FromStream s src h = elim (Result-cases (target s)) [
    | inl (x, e) ↦ absurd (ground arith)
    | inr (t, e) ↦ from_target s t src (only-one (targets s) t e) (ground arith)
  ]
