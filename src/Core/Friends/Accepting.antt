-- ===== src/Core/Friends/Accepting.antt =====
-- What accepting a friend request does (core/src/friends.rs).
use ankai.Prelude.{
  String, string_discrete, Bool, Option-cases, none, some, ◌≡◌, ap, ◌∙◌, inl, inr, arith,
}
use ankai.Prelude.Dict.{lookup, insert, erase, lookup-insert, lookup-erase}
use ankai.Prelude.Results.{Result-cases, ok}
use ankai.Sql.{Conn}
use ankai.Core.Friends.{
  Row, Tables, Table, rows_of, with_rows, Friend, Peers, row_of, save_contact, row_to_friend,
  get_pending_request, delete_pending_request, accept_friend_request,
}

module _ {Addr : Type 0} (peers : Peers Addr) where
  found-lookup :
      (id : String) (c : Conn Tables) (pending : Friend Addr)
      → (get_pending_request peers id c).0 ≡ ok (some pending)
      → (pending.device_id ≡ id)
        × ((row : Row) × (lookup string_discrete id c.tables.friend_requests ≡ some row)
            × (row_to_friend peers (id, row) ≡ ok pending))
  unfolding get_pending_request row_to_friend
  found-lookup id c pending h =
      elim (Option-cases (lookup string_discrete id c.tables.friend_requests)) [
        | inl e ↦ absurd (ground arith)
        | inr (row, e) ↦ (ground arith, (row, e, ground arith))
      ]

  save-ok :
      (table : Table) (contact : Friend Addr) (c : Conn Tables)
      → (save_contact peers table contact c).0 ≡ ok tt
      → (addr : String) × (peers.addr_to_string contact.addr ≡ some addr)
        × ((save_contact peers table contact c).1.tables
            ≡ with_rows table
                (insert string_discrete contact.device_id
                  (row_of peers contact addr)
                  (rows_of table c.tables))
                c.tables)
  unfolding save_contact
  save-ok table contact c h = elim (Option-cases (peers.addr_to_string contact.addr)) [
    | inl e ↦ absurd (ground arith)
    | inr (addr, e) ↦ (addr, e, ground arith)
  ]

  -- Whatever statements fail: where accepting a request succeeds, the request of the device was pending and is the
  -- friend that is returned; after it the request is gone, and the friend stands among the friends.
  pub accept_friend_request_moves :
      (id : String) (c : Conn Tables) (friend : Friend Addr) (told : Bool)
      → (accept_friend_request peers id c).0 ≡ ok (friend, told)
      → (friend.device_id ≡ id)
        × ((row : Row) × (lookup string_discrete id c.tables.friend_requests ≡ some row)
            × (row_to_friend peers (id, row) ≡ ok friend))
        × (lookup string_discrete id (accept_friend_request peers id c).1.tables.friend_requests
            ≡ none)
        × ((addr : String) × (peers.addr_to_string friend.addr ≡ some addr)
            × (lookup string_discrete friend.device_id
                  (accept_friend_request peers id c).1.tables.friends
                ≡ some (row_of peers friend addr)))
  unfolding accept_friend_request delete_pending_request
  accept_friend_request_moves id c friend told h =
      elim (Result-cases (get_pending_request peers id c).0) [
        | inl (x, e) ↦ absurd (ground arith)
        | inr (found, e) ↦ elim (Option-cases found) [
          | inl f ↦ absurd (ground arith)
          | inr (pending, f) ↦
              let read : Conn Tables = (get_pending_request peers id c).1 in
              let after : Conn Tables = (save_contact peers Table.friends pending read).1 in
              elim (Result-cases (save_contact peers Table.friends pending read).0) [
                | inl (x, g) ↦ absurd (ground arith)
                | inr (u, g) ↦
                    let same : pending ≡ friend = ground arith in
                    let was = found-lookup id c pending (e ∙ ap ok f) in
                    let saved = save-ok Table.friends pending read g in
                    let final : (accept_friend_request peers id c).1.tables ≡ record after.tables {
                      friend_requests = erase string_discrete id after.tables.friend_requests;
                    } =
                      ground arith in
                    let kept : (accept_friend_request peers id c).1.tables.friends
                        ≡ after.tables.friends =
                      ap (λ (t : Tables). t.friends) final in
                    rw (← same) (
                      was.0,
                      was.1,
                      ap (λ (t : Tables). lookup string_discrete id t.friend_requests) final
                          ∙ ground (
                            arith,
                            lookup-erase string_discrete id id after.tables.friend_requests,
                          ),
                      (
                        saved.0,
                        saved.1,
                        ap (lookup string_discrete pending.device_id)
                              (kept ∙ ap (λ (t : Tables). t.friends) saved.2)
                            ∙ ground (
                              arith,
                              lookup-insert string_discrete pending.device_id pending.device_id
                                  (row_of peers pending saved.0) read.tables.friends,
                            ),
                      ),
                    )
              ]
        ]
      ]
