-- ===== src/Core/FriendsTests.antt =====
-- The theorems on friend requests at concrete tables.
use ankai.Prelude.{String, string_discrete, true, false, none, some, [], ◌∷◌, ◌++◌, ◌≡◌, refl, sym}
use ankai.Prelude.Dict.{lookup}
use ankai.Prelude.Results.{ok}
use ankai.Sql.{Conn}
use ankai.Core.Friends.{
  wire_magic, Row, Tables, Friend, SignedHello, request, Peers, row_of, row_to_friend,
  get_pending_request, delete_pending_request, save_contact, encode_wire, accept_friend_request,
}
use ankai.Core.Friends.Signed.{Sound, incoming, accept_call, run, contacts-Sound}
use ankai.Core.Friends.Accepting.{accept_friend_request_moves}

abbrev bob : Friend String
bob = record { device_id = "bob"; account_id = "b"; addr = "addr"; public_key = 7 ∷ [] }

abbrev hello : SignedHello String
hello = record { contact = bob; signature = 1 ∷ [] }

-- Addresses are their own text, and every signature holds.
abbrev peers : Peers String
peers = record {
  addr_to_string = λ addr. some addr;
  addr_from_str = λ text. some text;
  contact_to_vec = λ contact. some [];
  message_to_vec = λ message. some [];
  message_from_slice = λ bytes. some (request hello);
  is_signature = λ message key signature. true;
  own_hello = some hello;
  send = λ addr bytes. true;
}

abbrev empty : Conn Tables
empty = record {
  tables = record { friend_requests = []; friends = [] };
  faults = [];
  poisoned = false;
}

contacts-Sound_example :
    Sound peers (run peers (incoming (wire_magic ++ 1 ∷ []) ∷ accept_call "bob" ∷ []) empty).tables
contacts-Sound_example =
    contacts-Sound peers (λ addr text e. sym e)
      (incoming (wire_magic ++ 1 ∷ []) ∷ accept_call "bob" ∷ []) empty
      (record { requests = tt; friends = tt })

abbrev pending : Conn Tables
pending = record {
  tables = record {
    friend_requests = ("bob", record { account_id = "b"; addr = "addr"; public_key = 7 ∷ [] }) ∷ [];
    friends = [];
  };
  faults = [];
  poisoned = false;
}

bob_accepted : (accept_friend_request peers "bob" pending).0 ≡ ok (bob, true)
unfolding accept_friend_request get_pending_request lookup string_discrete row_to_friend
    save_contact delete_pending_request encode_wire
bob_accepted = refl

accept_friend_request_moves_example :
    (bob.device_id ≡ "bob")
    × ((row : Row) × (lookup string_discrete "bob" pending.tables.friend_requests ≡ some row)
        × (row_to_friend peers ("bob", row) ≡ ok bob))
    × (lookup string_discrete "bob"
          (accept_friend_request peers "bob" pending).1.tables.friend_requests
        ≡ none)
    × ((addr : String) × (peers.addr_to_string bob.addr ≡ some addr)
        × (lookup string_discrete bob.device_id
              (accept_friend_request peers "bob" pending).1.tables.friends
            ≡ some (row_of peers bob addr)))
accept_friend_request_moves_example =
    accept_friend_request_moves peers "bob" pending bob true bob_accepted
