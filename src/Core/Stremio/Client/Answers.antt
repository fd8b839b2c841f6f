-- ===== src/Core/Stremio/Client/Answers.antt =====
-- What core/src/stremio.rs takes of an add-on's answers, whatever the add-on sends.
use ankai.Prelude.{
  ℕ, ◌-◌, ◌^◌, ◌≤◌, ◌<◌, String, true, length, length-append, All, Option, Option-cases, none, some,
  List, [], ◌∷◌, ◌++◌, ◌≡◌, ◌∙◌, inl, inr, arith,
}
use mathlib.Core.List.{append-nil, append_assoc}
use ankai.Prelude.Results.{Result-cases, ok}
use ankai.Core.Stremio.Address.{Url}
use ankai.Core.Stremio.Address.Redirects.{IsPublic, validate_public_https_url-IsPublic}
use ankai.Core.Stremio.Checks.{each, Check}
use ankai.Core.Stremio.Items.{Stream}
use ankai.Core.Stremio.Streams.{validate_stream}
use ankai.Core.Stremio.Metas.{max_stream_items}
use ankai.Core.Stremio.Client.{
  Response, read_chunks, read_bounded_body, Network, Decoders, get, streams, json_file,
  max_stream_bytes,
}

-- The chunks that could be read, one after another.
abbrev pub joined : List (Option (List ℕ)) → List ℕ
joined [] = []
joined (none ∷ chunks) = joined chunks
joined (some chunk ∷ chunks) = chunk ++ joined chunks

read_chunks-joined :
    (max_bytes : ℕ) (body : List ℕ) (chunks : List (Option (List ℕ))) (result : List ℕ)
    → max_bytes < 2 ^ 64 - 1
    → length body ≤ max_bytes
    → read_chunks max_bytes body chunks ≡ ok result
    → (result ≡ body ++ joined chunks) × (length result ≤ max_bytes)
unfolding read_chunks
read_chunks-joined max_bytes body [] result m l h = (ground (arith, append-nil body), ground arith)
read_chunks-joined max_bytes body (none ∷ chunks) result m l h = absurd (cc)
read_chunks-joined max_bytes body (some chunk ∷ chunks) result m l h =
    let rest =
      read_chunks-joined max_bytes (body ++ chunk) chunks result m
        (ground (arith, length-append body chunk)) (ground arith) in
    (rest.0 ∙ append_assoc body chunk (joined chunks), rest.1)

-- Where a body of at most so many bytes is read, it is all that came, and no longer than that.
pub read_bounded_body-joined :
    (response : Response) (max_bytes : ℕ) (body : List ℕ)
    → max_bytes < 2 ^ 64 - 1
    → read_bounded_body response max_bytes ≡ ok body
    → (body ≡ joined response.chunks) × (length body ≤ max_bytes)
unfolding read_bounded_body
read_bounded_body-joined response max_bytes body m h =
    read_chunks-joined max_bytes [] response.chunks body m (omega arith) (ground arith)

-- An item that was decoded from all that came in answer to one request, to a public URL.
pub record Answered {T : Type 0} (net : Network) (from_slice : List ℕ → Option T) (max_bytes : ℕ)
    (x : T) : Type 0 where
  pub url : Url
  pub public : IsPublic net.parse_ip url
  pub response : Response
  pub sent : net.send url ≡ some response
  pub success : response.is_success ≡ true
  pub small : length (joined response.chunks) ≤ max_bytes
  pub decoded : from_slice (joined response.chunks) ≡ some x

get-Answered :
    {T : Type 0} (net : Network) (from_slice : List ℕ → Option T) (url : Url) (max_bytes : ℕ)
    (x : T)
    → max_bytes < 2 ^ 64 - 1
    → get net from_slice url max_bytes ≡ ok x
    → Answered net from_slice max_bytes x
unfolding get
get-Answered net from_slice url max_bytes x m h = elim (Option-cases (net.send url)) [
  | inl e ↦ absurd (ground arith)
  | inr (response, e) ↦ elim (Result-cases (read_bounded_body response max_bytes)) [
    | inl (f, r) ↦ absurd (ground arith)
    | inr (body, r) ↦
        let read = read_bounded_body-joined response max_bytes body m r in
        let decoded : from_slice body ≡ some x = ground arith in
        record {
          url = url;
          public = (validate_public_https_url-IsPublic net.parse_ip url).0 (ground arith);
          response = response;
          sent = e;
          success = ground arith;
          small = ground (arith, read.0, read.1);
          decoded = ground (arith, read.0, decoded);
        }
  ]
]

each-All :
    {A : Type 0} (check : A → Check) (xs : List A)
    → each check xs ≡ ok tt
    → All (λ x. check x ≡ ok tt) xs
each-All check [] h = tt
each-All check (x ∷ xs) h = (ground arith, each-All check xs (ground arith))

-- Whatever an add-on's server sends, the streams that its client gives were decoded from all that came in answer
-- to one request to a public URL, at most 2 MiB; they are at most 500, and each passes the checks of a stream.
pub streams-Answered :
    (net : Network) (json : Decoders) (media_type id : String) (found : List Stream)
    → streams net json media_type id ≡ ok found
    → Answered net json.streams max_stream_bytes found
      × (length found ≤ max_stream_items)
      × All (λ s. validate_stream s ≡ ok tt) found
unfolding streams
streams-Answered net json media_type id found h =
    elim (Option-cases (net.endpoint ("stream" ∷ media_type ∷ json_file id ∷ []))) [
      | inl e ↦ absurd (ground arith)
      | inr (url, e) ↦ elim (Result-cases (get net json.streams url max_stream_bytes)) [
        | inl (f, g) ↦ absurd (ground arith)
        | inr (got, g) ↦
            let same : got ≡ found = ground arith in
            (
              rw (← same) (get-Answered net json.streams url max_stream_bytes got (omega arith) g),
              ground arith,
              each-All validate_stream found (ground arith),
            )
      ]
    ]
