-- ===== src/Core/Friends.antt =====
-- Friend requests of core/src/friends.rs: two tables of contacts, pending requests and friends, and the messages
-- that fill them. iroh's addresses and sending, serde_json and the signature scheme are parameters. Rows stand in
-- the order of their row ids; messages of errors are left out.
pub mod Signed
pub mod Accepting
use ankai.Prelude.{
  ℕ, ◌==◌, String, string_discrete, utf8, Bool, true, false, if◌then◌else◌, Option, none, some,
  List, [], ◌∷◌, ◌++◌,
}
use ankai.Prelude.Dict.{lookup, insert, erase}
use ankai.Prelude.Results.{Result, ok, err}
use ankai.Sql.{Action, pure, raise, ◌>>=◌, ◌>>◌, branch, on_option, map_err, query, execute}

-- Of the crate's errors those of this module.
pub data Error : Type 0 where
  db net identity : Error

abbrev pub wire_magic : List ℕ
wire_magic = utf8 "ankai/friends/v1\n"

-- A contact as it is stored, under its device id: the address is JSON text.
pub record Row : Type 0 where
  pub account_id : String
  pub addr : String
  pub public_key : List ℕ

pub record Tables : Type 0 where
  pub friend_requests : List (String × Row)
  pub friends : List (String × Row)

abbrev pub Db : Type 0 → Type 0
Db = Action Tables Error

-- The two names of tables that the code writes into its statements.
pub data Table : Type 0 where
  friend_requests friends : Table

abbrev pub rows_of : Table → Tables → List (String × Row)
rows_of friend_requests t = t.friend_requests
rows_of friends t = t.friends

abbrev pub with_rows : Table → List (String × Row) → Tables → Tables
with_rows friend_requests rows t = record t { friend_requests = rows }
with_rows friends rows t = record t { friends = rows }

-- `strip_prefix`.
unfoldable pub strip_prefix : List ℕ → List ℕ → Option (List ℕ)
strip_prefix [] bytes = some bytes
strip_prefix (a ∷ magic) [] = none
strip_prefix (a ∷ magic) (b ∷ bytes) =
    let rest = strip_prefix magic bytes in if a == b then rest else none

module _ (Addr : Type 0) where
  pub record Friend : Type 0 where
    pub device_id : String
    pub account_id : String
    pub addr : Addr
    pub public_key : List ℕ

  pub record SignedHello : Type 0 where
    pub contact : Friend
    pub signature : List ℕ

  pub data WireMessage : Type 0 where
    request accept : SignedHello → WireMessage

  -- serde_json for addresses, contacts and messages, what the signature scheme decides of a message, a key and a
  -- signature, and this device's own signed contact, which may fail.
  pub record Peers : Type 0 where
    pub addr_to_string : Addr → Option String
    pub addr_from_str : String → Option Addr
    pub contact_to_vec : Friend → Option (List ℕ)
    pub message_to_vec : WireMessage → Option (List ℕ)
    pub message_from_slice : List ℕ → Option WireMessage
    pub is_signature : (message public_key signature : List ℕ) → Bool
    pub own_hello : Option SignedHello
    pub send : Addr → List ℕ → Bool

pub data FriendEvent : Type 0 where
  request_received request_accepted : String → FriendEvent

module _ {Addr : Type 0} (peers : Peers Addr) where
  unfoldable pub encode_wire : WireMessage Addr → Result Error (List ℕ)
  encode_wire message = elim (peers.message_to_vec message) [
    | none ↦ err net
    | some body ↦ ok (wire_magic ++ body)
  ]

  unfoldable pub try_decode : List ℕ → Option (Result Error (WireMessage Addr))
  try_decode bytes = elim (strip_prefix wire_magic bytes) [
    | none ↦ none
    | some rest ↦ elim (peers.message_from_slice rest) [
      | none ↦ some (err net)
      | some message ↦ some (ok message)
    ]
  ]

  -- `verify_hello`.
  unfoldable pub verify_hello : SignedHello Addr → Result Error (Unit {0})
  verify_hello hello = elim (peers.contact_to_vec hello.contact) [
    | none ↦ err identity
    | some bytes ↦
        if peers.is_signature bytes hello.contact.public_key hello.signature
        then ok tt
        else err identity
  ]

  -- A result of the code as a step that reads no table.
  abbrev pub lift : {A : Type 0} → Result Error A → Db A
  lift r c = (r, c)

  abbrev pub row_of : Friend Addr → String → Row
  row_of contact addr = record {
    account_id = contact.account_id;
    addr = addr;
    public_key = contact.public_key;
  }

  -- The upsert sets every column but the key.
  unfoldable pub save_contact : Table → Friend Addr → Db (Unit {0})
  save_contact table contact =
      on_option (peers.addr_to_string contact.addr)
        (λ addr.
          map_err (λ _. db)
            (execute (λ t. some (
              with_rows table
                (insert string_discrete contact.device_id (row_of contact addr) (rows_of table t))
                t))))
        (raise db)

  unfoldable pub row_to_friend : String × Row → Result Error (Friend Addr)
  row_to_friend (device_id, row) = elim (peers.addr_from_str row.addr) [
    | none ↦ err db
    | some addr ↦ ok (record {
      device_id = device_id;
      account_id = row.account_id;
      addr = addr;
      public_key = row.public_key;
    })
  ]

  unfoldable pub get_pending_request : String → Db (Option (Friend Addr))
  get_pending_request device_id = do
    row ← map_err (λ _. db) (query (λ t. lookup string_discrete device_id t.friend_requests))
    on_option row (λ row. do friend ← lift (row_to_friend (device_id, row)); pure (some friend))
        (pure none)

  unfoldable pub delete_pending_request : String → Db (Unit {0})
  delete_pending_request device_id =
      map_err (λ _. db)
        (execute (λ t.
          some (record t { friend_requests = erase string_discrete device_id t.friend_requests })))

  abbrev pub decline_friend_request : String → Db (Unit {0})
  decline_friend_request = delete_pending_request

  abbrev handle_message : WireMessage Addr → Db (Option FriendEvent)
  handle_message (request hello) = do
    lift (verify_hello hello)
    save_contact Table.friend_requests hello.contact
    pure (some (request_received hello.contact.device_id))
  handle_message (accept hello) = do
    lift (verify_hello hello)
    save_contact Table.friends hello.contact
    pure (some (request_accepted hello.contact.device_id))

  unfoldable pub handle_incoming : List ℕ → Db (Option FriendEvent)
  handle_incoming bytes =
      on_option (try_decode bytes) (λ decoded. do message ← lift decoded; handle_message message)
        (pure none)

  abbrev hello_or : Option (SignedHello Addr) → Result Error (SignedHello Addr)
  hello_or none = err identity
  hello_or (some hello) = ok hello

  -- The friend, and whether the peer was told.
  unfoldable pub accept_friend_request : String → Db (Friend Addr × Bool)
  accept_friend_request device_id = do
    found ← get_pending_request device_id
    on_option found
        (λ pending. do
          save_contact Table.friends pending
          delete_pending_request device_id
          hello ← lift (hello_or peers.own_hello)
          bytes ← lift (encode_wire (accept hello))
          pure (pending, peers.send pending.addr bytes))
        (raise db)

  unfoldable pub collect : List (String × Row) → Result Error (List (Friend Addr))
  collect [] = ok []
  collect (row ∷ rows) =
      let rest = collect rows in
      elim (row_to_friend row) [
        | err e ↦ err e
        | ok friend ↦ elim rest [ err e ↦ err e | ok more ↦ ok (friend ∷ more) ]
      ]

  unfoldable pub list_contacts : Table → Db (List (Friend Addr))
  list_contacts table = do rows ← map_err (λ _. db) (query (rows_of table)); lift (collect rows)
