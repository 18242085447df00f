-- ===== src/Databases/Userdb/Blocked.antt =====
-- What a call of `Set` in userdb/userdb.go leaves behind: its lock.
use talkeqidea.Common.{
  ◌≡◌, Bool, true, false, Option, none, some, Text, TextMap, arith, refl, sym, ap,
}
use talkeqidea.Golang.Search.{is_some}
use talkeqidea.Databases.Userdb.{Users, UserEntry, find, assign, set, set_found, name}

assign_locked :
    (u : Users) (e : UserEntry) (can_save : Bool) (m : Option (TextMap UserEntry))
    → u.is_locked ≡ true
    → ((assign u e can_save m).0.is_locked ≡ true) × ((assign u e can_save m).1 ≡ is_some m)
unfolding assign
assign_locked u e can_save none locked = (locked, refl)
assign_locked u e can_save (some m) locked = (locked, refl)

-- A call that finds an entry found it in a map.
found_somewhere :
    (id : Text) (m : Option (TextMap UserEntry)) (e : UserEntry)
    → find id m ≡ some e
    → is_some m ≡ true
unfolding find
found_somewhere id none e h = absurd (cc)
found_somewhere id (some m) e h = refl

set_found_locked :
    (u : Users) (id name : Text) (can_save : Bool) (e : Option UserEntry)
    → find id u.users ≡ e
    → u.is_locked ≡ true
    → ((set_found u id name can_save e).0.is_locked ≡ true)
      × ((set_found u id name can_save e).1 ≡ is_some u.users)
unfolding set_found
set_found_locked u id name can_save (some e) found locked =
    (locked, sym (found_somewhere id u.users e found))
set_found_locked u id name can_save none found locked =
    assign_locked u (record { discord_id = id; character_name = name }) can_save u.users locked

pub set-some :
    (u : Users) (id name : Text) (can_save : Bool)
    → u.is_locked ≡ false
    → (u' : Users) × (set u id name can_save ≡ some (u', is_some u.users)) × (u'.is_locked ≡ true)
unfolding set
set-some u id name can_save open_ =
    let (locked, returns) =
      set_found_locked (record u { is_locked = true }) id name can_save (find id u.users) refl
        refl in
    (
      (set_found (record u { is_locked = true }) id name can_save (find id u.users)).0,
      rw open_ (
          ap some (
            ap
              (λ b. (
                (set_found (record u { is_locked = true }) id name can_save (find id u.users)).0,
                b,
              ))
              returns)),
      locked,
    )

pub name_blocked : (u : Users) (id : Text) → u.is_locked ≡ true → name u id ≡ none
unfolding name
name_blocked u id locked = ground arith
