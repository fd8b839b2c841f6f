-- ===== src/Core/Friends/Signed.antt =====
-- Every contact that core/src/friends.rs stores was signed under the key that it declares.
use ankai.Prelude.{
  ℕ, String, string_discrete, Bool-cases, true, Option-cases, some, List, [], ◌∷◌, All, ◌≡◌, ap,
  ◌∙◌, ◌⊎◌, inl, inr, arith,
}
use mathlib.Core.Path.{subst}
use ankai.Prelude.Dict.{lookup, insert, erase, All-insert, All-erase, All-lookup}
use ankai.Prelude.Results.{Result-cases, ok}
use ankai.Sql.{Conn, now_fails}
use ankai.Core.Friends.{
  Row, Tables, Table, rows_of, with_rows, Friend, SignedHello, WireMessage, request, accept, Peers,
  try_decode, verify_hello, row_of, save_contact, row_to_friend, get_pending_request,
  delete_pending_request, decline_friend_request, handle_message, handle_incoming,
  accept_friend_request, list_contacts,
}

module _ {Addr : Type 0} (peers : Peers Addr) where
  -- Somebody who holds the private half of the contact's key signed the contact.
  abbrev pub IsSigned : Friend Addr → Type 0
  IsSigned contact =
      (bytes : List ℕ) × (signature : List ℕ) × (peers.contact_to_vec contact ≡ some bytes)
      × (peers.is_signature bytes contact.public_key signature ≡ true)

  -- A row that reads as a signed contact.
  abbrev pub RowSigned : String × Row → Type 0
  RowSigned row =
      (contact : Friend Addr) × (row_to_friend peers row ≡ ok contact) × IsSigned contact

  pub record Sound (t : Tables) : Type 0 where
    pub requests : All RowSigned t.friend_requests
    pub friends : All RowSigned t.friends

  verify_hello-IsSigned :
      (hello : SignedHello Addr) → verify_hello peers hello ≡ ok tt → IsSigned hello.contact
  unfolding verify_hello
  verify_hello-IsSigned hello h = elim (Option-cases (peers.contact_to_vec hello.contact)) [
    | inl e ↦ absurd (ground arith)
    | inr (bytes, e) ↦ (bytes, hello.signature, e, ground arith)
  ]

  -- What a save leaves.
  save_after :
      (table : Table) (contact : Friend Addr) (c : Conn Tables)
      → ((save_contact peers table contact c).1.tables ≡ c.tables)
        ⊎ ((addr : String) × (peers.addr_to_string contact.addr ≡ some addr)
            × ((save_contact peers table contact c).1.tables
                ≡ with_rows table
                    (insert string_discrete contact.device_id
                      (row_of peers contact addr)
                      (rows_of table c.tables))
                    c.tables))
  unfolding save_contact
  save_after table contact c = elim (Option-cases (peers.addr_to_string contact.addr)) [
    | inl e ↦ inl (ground arith)
    | inr (addr, e) ↦ elim (Bool-cases (now_fails c.faults)) [
      | inl f ↦ inl (ground arith)
      | inr f ↦ inr (addr, e, ground arith)
    ]
  ]

  delete_after :
      (id : String) (c : Conn Tables)
      → ((delete_pending_request peers id c).1.tables ≡ c.tables)
        ⊎ ((delete_pending_request peers id c).1.tables ≡ record c.tables {
          friend_requests = erase string_discrete id c.tables.friend_requests;
        })
  unfolding delete_pending_request
  delete_after id c = elim (Bool-cases (now_fails c.faults)) [
    | inl f ↦ inl (ground arith)
    | inr f ↦ inr (ground arith)
  ]

  get_frame : (id : String) (c : Conn Tables) → (get_pending_request peers id c).1.tables ≡ c.tables
  unfolding get_pending_request
  get_frame id c = ground arith

  -- The calls of the module.
  pub data Call : Type 0 where
    incoming : List ℕ → Call
    accept_call decline_call : String → Call
    list_call : Table → Call

  unfoldable pub perform : Call → Conn Tables → Conn Tables
  perform (incoming bytes) c = (handle_incoming peers bytes c).1
  perform (accept_call device_id) c = (accept_friend_request peers device_id c).1
  perform (decline_call device_id) c = (decline_friend_request peers device_id c).1
  perform (list_call table) c = (list_contacts peers table c).1

  unfoldable pub run : List Call → Conn Tables → Conn Tables
  run [] c = c
  run (call ∷ calls) c = run calls (perform call c)

  list_frame : (table : Table) (c : Conn Tables) → (list_contacts peers table c).1.tables ≡ c.tables
  unfolding list_contacts
  list_frame table c = ground arith

  -- serde_json reads back the addresses that it writes.
  module _
      (back : (addr : Addr) (text : String)
        → peers.addr_to_string addr ≡ some text
        → peers.addr_from_str text ≡ some addr) where
    row_of-RowSigned :
        (contact : Friend Addr) (addr : String)
        → peers.addr_to_string contact.addr ≡ some addr
        → IsSigned contact
        → RowSigned (contact.device_id, row_of peers contact addr)
    unfolding row_to_friend
    row_of-RowSigned contact addr e s = (contact, ground (arith, back contact.addr addr e), s)

    save-Sound :
        (table : Table) (contact : Friend Addr) (c : Conn Tables)
        → IsSigned contact
        → Sound c.tables
        → Sound (save_contact peers table contact c).1.tables
    save-Sound table contact c signed s = elim (save_after table contact c) [
      | inl e ↦ rw e s
      | inr (addr, a, e) ↦ rw e (put table addr (row_of-RowSigned contact addr a signed) s)
    ]
      where
        put :
            (table : Table) (addr : String)
            → RowSigned (contact.device_id, row_of peers contact addr)
            → Sound c.tables
            → Sound (
                with_rows table
                  (insert string_discrete contact.device_id
                    (row_of peers contact addr)
                    (rows_of table c.tables))
                  c.tables)
        put Table.friend_requests addr r s = record {
          requests =
              All-insert string_discrete RowSigned contact.device_id (row_of peers contact addr)
                c.tables.friend_requests r s.requests;
          friends = s.friends;
        }
        put Table.friends addr r s = record {
          requests = s.requests;
          friends =
              All-insert string_discrete RowSigned contact.device_id (row_of peers contact addr)
                c.tables.friends r s.friends;
        }

    delete-Sound :
        (id : String) (c : Conn Tables)
        → Sound c.tables
        → Sound (delete_pending_request peers id c).1.tables
    delete-Sound id c s = elim (delete_after id c) [
      | inl e ↦ rw e s
      | inr e ↦ rw e (record {
        requests = All-erase string_discrete RowSigned id c.tables.friend_requests s.requests;
        friends = s.friends;
      })
    ]

    handle_message-Sound :
        (message : WireMessage Addr) (c : Conn Tables)
        → Sound c.tables
        → Sound (handle_message peers message c).1.tables
    handle_message-Sound (request hello) c s = elim (Result-cases (verify_hello peers hello)) [
      | inl (x, e) ↦ subst Sound (ground arith) s
      | inr (u, e) ↦ subst Sound (ground arith) (
          save-Sound Table.friend_requests hello.contact c
            (verify_hello-IsSigned hello (ground arith)) s)
    ]
    handle_message-Sound (accept hello) c s = elim (Result-cases (verify_hello peers hello)) [
      | inl (x, e) ↦ subst Sound (ground arith) s
      | inr (u, e) ↦
          subst Sound (ground arith) (
            save-Sound Table.friends hello.contact c (verify_hello-IsSigned hello (ground arith)) s)
    ]

    handle_incoming-Sound :
        (bytes : List ℕ) (c : Conn Tables)
        → Sound c.tables
        → Sound (handle_incoming peers bytes c).1.tables
    unfolding handle_incoming
    handle_incoming-Sound bytes c s = elim (Option-cases (try_decode peers bytes)) [
      | inl e ↦ subst Sound (ground arith) s
      | inr (decoded, e) ↦ elim (Result-cases decoded) [
        | inl (x, f) ↦ subst Sound (ground arith) s
        | inr (message, f) ↦ subst Sound (ground arith) (handle_message-Sound message c s)
      ]
    ]

    found-IsSigned :
        (id : String) (c : Conn Tables) (pending : Friend Addr)
        → Sound c.tables
        → (get_pending_request peers id c).0 ≡ ok (some pending)
        → IsSigned pending
    unfolding get_pending_request
    found-IsSigned id c pending s h =
        elim (Option-cases (lookup string_discrete id c.tables.friend_requests)) [
          | inl e ↦ absurd (ground arith)
          | inr (row, e) ↦
              let signed =
                All-lookup string_discrete RowSigned id c.tables.friend_requests s.requests e in
              let same : signed.0 ≡ pending = ground (arith, signed.1) in rw (← same) signed.2
        ]

    accept-Sound :
        (id : String) (c : Conn Tables)
        → Sound c.tables
        → Sound (accept_friend_request peers id c).1.tables
    unfolding accept_friend_request
    accept-Sound id c s =
        let read : Conn Tables = (get_pending_request peers id c).1 in
        let kept : Sound read.tables = rw (get_frame id c) s in
        elim (Result-cases (get_pending_request peers id c).0) [
          | inl (x, e) ↦ subst Sound (ground arith) kept
          | inr (found, e) ↦ elim (Option-cases found) [
            | inl f ↦ subst Sound (ground arith) kept
            | inr (pending, f) ↦
                let signed = found-IsSigned id c pending s (e ∙ ap ok f) in
                let saved = save-Sound Table.friends pending read signed kept in
                let after : Conn Tables = (save_contact peers Table.friends pending read).1 in
                elim (Result-cases (save_contact peers Table.friends pending read).0) [
                  | inl (x, g) ↦ subst Sound (ground arith) saved
                  | inr (u, g) ↦ subst Sound (ground arith) (delete-Sound id after saved)
                ]
          ]
        ]

    perform-Sound : (call : Call) (c : Conn Tables) → Sound c.tables → Sound (perform call c).tables
    unfolding perform
    perform-Sound (incoming bytes) c s = handle_incoming-Sound bytes c s
    perform-Sound (accept_call id) c s = accept-Sound id c s
    perform-Sound (decline_call id) c s = delete-Sound id c s
    perform-Sound (list_call table) c s = rw (list_frame table c) s

    -- Through any messages, acceptances and refusals, whatever statements fail and whatever peers send: where
    -- serde_json reads back the addresses that it writes, every contact that is stored, as a request or as a
    -- friend, was signed under the key that it declares, if this held before.
    pub contacts-Sound :
        (calls : List Call) (c : Conn Tables) → Sound c.tables → Sound (run calls c).tables
    unfolding run
    contacts-Sound [] c s = s
    contacts-Sound (call ∷ calls) c s =
        contacts-Sound calls (perform call c) (perform-Sound call c s)
