-- ===== src/Directory/Storage/Calls.antt =====
-- Sequences of calls of the storage of server/directory/src/db.rs, on one connection: the lock
-- makes each call one step, so a sequence is any interleaving of the requests that call it.
use ankai.Prelude.{String, List, [], ◌∷◌, ◌≡◌, refl, ◌⊎◌, inl, inr, arith}
use ankai.Prelude.Int.{ℤ}
use ankai.Sql.{Conn}
use ankai.Directory.Storage.{
  Tables, key_of, owner_of, put_addr, bind_device_key, insert_key_package, take_key_packages,
  upsert_endpoint_addr, get_endpoint_addr, claim_username, lookup_username, add_package,
  touch_claim, free_names,
}
use ankai.Directory.Storage.Keys.{Pins, bind_device_key-Pins, add_key_lem, with_key}
use ankai.Directory.Storage.Names.{IsFair, claim_username-IsFair, claim_username-Left, with_claim}
use ankai.Directory.Storage.Packages.{IsNumbered, delete-IsNumbered}
use ankai.Directory.Storage.Numbering.{add_package-IsNumbered, take_key_packages-keeps}

pub data Call : Type 0 where
  bind : (device_id key : String) (now : ℤ) → Call
  publish : (device_id json : String) (now : ℤ) → Call
  take : (device_id : String) (now max_age : ℤ) → Call
  upsert : (device_id json : String) (now : ℤ) → Call
  get : (device_id : String) (now ttl : ℤ) → Call
  claim : (device_id name : String) (now : ℤ) → Call
  find : (name : String) → Call

-- The connection after a call, whatever it returned.
unfoldable pub run : Call → Conn Tables → Conn Tables
run (bind d key now) c = (bind_device_key d key now c).1
run (publish d json now) c = (insert_key_package d json now c).1
run (take d now age) c = (take_key_packages d now age c).1
run (upsert d json now) c = (upsert_endpoint_addr d json now c).1
run (get d now ttl) c = (get_endpoint_addr d now ttl c).1
run (claim d name now) c = (claim_username d name now c).1
run (find name) c = (lookup_username name c).1

unfoldable pub run_all : List Call → Conn Tables → Conn Tables
run_all [] c = c
run_all (call ∷ calls) c = run_all calls (run call c)

-- The invariant of the tables.
pub record IsSound (t : Tables) : Type 0 where
  pub fair : IsFair t
  pub numbered : IsNumbered t

same_names : {t u : Tables} → u.usernames ≡ t.usernames → IsFair t → IsFair u
unfolding owner_of
same_names {t} {u} e h = record {
  distinct = rw e h.distinct;
  single = λ a b d p q. h.single a b d (ground arith) (ground arith);
  proper = λ a d p. h.proper a d (ground arith);
}

same_packages :
    {t u : Tables}
    → u.key_packages ≡ t.key_packages
    → u.next_id ≡ t.next_id
    → IsNumbered t
    → IsNumbered u
same_packages {t} {u} e f h = record { below = rw (e, f) h.below; ids = rw e h.ids }

bind-IsSound :
    (d key : String) (now : ℤ) (c : Conn Tables)
    → IsSound c.tables
    → IsSound (bind_device_key d key now c).1.tables
unfolding bind_device_key with_key
bind-IsSound d key now c h = record {
  fair = same_names (ground (arith, add_key_lem d key now c.tables)) h.fair;
  numbered =
      same_packages (ground (arith, add_key_lem d key now c.tables))
        (ground (arith, add_key_lem d key now c.tables)) h.numbered;
}

publish_after :
    (d json : String) (now : ℤ) (c : Conn Tables)
    → ((insert_key_package d json now c).1.tables ≡ c.tables)
      ⊎ ((insert_key_package d json now c).1.tables ≡ add_package d json now c.tables)
unfolding insert_key_package
publish_after d json now c = ground arith

add_package-IsSound :
    (d json : String) (now : ℤ) (t : Tables) → IsSound t → IsSound (add_package d json now t)
unfolding add_package
add_package-IsSound d json now t h = record {
  fair = same_names refl h.fair;
  numbered = add_package-IsNumbered d json now t h.numbered;
}

claim-IsSound :
    (d name : String) (now : ℤ) (c : Conn Tables)
    → IsSound c.tables
    → IsSound (claim_username d name now c).1.tables
unfolding touch_claim free_names with_claim
claim-IsSound d name now c h = record {
  fair = claim_username-IsFair d name now c h.fair;
  numbered =
      same_packages (ground (arith, claim_username-Left d name now c))
        (ground (arith, claim_username-Left d name now c)) h.numbered;
}

run-IsSound : (call : Call) (c : Conn Tables) → IsSound c.tables → IsSound (run call c).tables
unfolding run upsert_endpoint_addr put_addr get_endpoint_addr lookup_username
run-IsSound (bind d key now) c h = bind-IsSound d key now c h
run-IsSound (publish d json now) c h = elim (publish_after d json now c) [
  | inl e ↦ rw e h
  | inr e ↦ rw e (add_package-IsSound d json now c.tables h)
]
run-IsSound (take d now age) c h =
    take_key_packages-keeps IsSound
      (λ p t s. record {
        fair = same_names refl s.fair;
        numbered = delete-IsNumbered _ t s.numbered;
      })
      d now age c h
run-IsSound (upsert d json now) c h = record {
  fair = same_names (ground arith) h.fair;
  numbered = same_packages (ground arith) (ground arith) h.numbered;
}
run-IsSound (get d now ttl) c h = record {
  fair = same_names (ground arith) h.fair;
  numbered = same_packages (ground arith) (ground arith) h.numbered;
}
run-IsSound (claim d name now) c h = claim-IsSound d name now c h
run-IsSound (find name) c h = record {
  fair = same_names (ground arith) h.fair;
  numbered = same_packages (ground arith) (ground arith) h.numbered;
}

-- Whatever calls are made, in any order, and whatever statements fail: usernames stay fair (one
-- owner each, one name for each device, only names of the accepted form), and the ids of the key
-- packages ascend in the order of the rows.
pub run_all-IsSound :
    (calls : List Call) (c : Conn Tables) → IsSound c.tables → IsSound (run_all calls c).tables
unfolding run_all
run_all-IsSound [] c h = h
run_all-IsSound (call ∷ calls) c h = run_all-IsSound calls (run call c) (run-IsSound call c h)

same_keys : (t u : Tables) → u.device_keys ≡ t.device_keys → Pins t u
unfolding key_of
same_keys t u e j k h = ground arith

run-Pins : (call : Call) (c : Conn Tables) → Pins c.tables (run call c).tables
unfolding run insert_key_package add_package upsert_endpoint_addr put_addr get_endpoint_addr
    lookup_username touch_claim free_names with_claim
run-Pins (bind d key now) c = (bind_device_key-Pins d key now c).0
run-Pins (publish d json now) c = same_keys _ _ (ground arith)
run-Pins (take d now age) c =
    take_key_packages-keeps (Pins c.tables) (λ p t h j k e. same_keys _ _ refl j k (h j k e)) d now
      age c (λ j k e. e)
run-Pins (upsert d json now) c = same_keys _ _ (ground arith)
run-Pins (get d now ttl) c = same_keys _ _ (ground arith)
run-Pins (claim d name now) c = same_keys _ _ (ground (arith, claim_username-Left d name now c))
run-Pins (find name) c = same_keys _ _ (ground arith)

-- Trust on first use: whatever calls are made afterwards, in any order, and whatever statements
-- fail, a device that is bound to a key stays bound to that key.
pub run_all-Pins : (calls : List Call) (c : Conn Tables) → Pins c.tables (run_all calls c).tables
unfolding run_all
run_all-Pins [] c j k h = h
run_all-Pins (call ∷ calls) c j k h = run_all-Pins calls (run call c) j k (run-Pins call c j k h)
