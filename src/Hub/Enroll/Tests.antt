-- ===== src/Hub/Enroll/Tests.antt =====
-- A store with one code, and a hash that is the code itself.
use talkeqidea.Common.{
  ◌*◌, ◌≡◌, refl, false, [], ◌∷◌, none, arith, Text, codes, text_eq, ok, retain, erase,
}
use talkeqidea.Golang.Tables.{ascii_tables}
use talkeqidea.Relay.EnrollCode.{normalize_enroll_code}
use talkeqidea.Hub.Store.{present, saved, save_failed, refresh, refresh_from, save}
use talkeqidea.Hub.Enroll.{
  EnrollEntry, EnrollStore, second, is_expired, redeem, redeem_found, redeemed, find_code, current,
  prune, charge,
}
use talkeqidea.Hub.Enroll.Guesses.{Guess, IsHeld, IsRefused, redeem_all, guesses_burn}
use talkeqidea.Hub.Enroll.Redemption.{redeem_once}

abbrev good_code : Text
good_code = codes "ABCDEFGHJKMN"

abbrev issued : EnrollEntry
issued = record {
  id = codes "1";
  code_hash = good_code;
  server_key = codes "east";
  short_name = codes "East";
  expires_at = 900;
  created_at = 0;
  attempts = 0;
}

abbrev store : EnrollStore
store = record { entries = (codes "1", issued) ∷ []; loaded_mod_time = 7; disk = present 7 none }

abbrev guess : Text → Guess
guess code = record { now = 5 * second; outcome = save_failed; code = code }

accepted :
    (redeem ascii_tables text_eq store (5 * second) (saved 8) (codes "abcd-efgh-jkmn")).1
    ≡ ok issued
unfolding redeem redeem_found redeemed find_code current prune retain refresh refresh_from save
    is_expired normalize_enroll_code text_eq
accepted = refl

store_held : IsHeld store
unfolding refresh refresh_from
store_held = λ m. refl

guesses_burn_example :
    (redeem_all ascii_tables text_eq store (
      guess (codes "ABCDEFGHJKMP")
      ∷ guess (codes "ABCDEFGHJKMQ")
      ∷ guess (codes "ABCDEFGHJKMR")
      ∷ guess (codes "ABCDEFGHJKMS")
      ∷ guess (codes "ABCDEFGHJKMT")
      ∷ [])).entries
    ≡ []
unfolding redeem redeem_found redeemed find_code current prune charge retain refresh refresh_from
    save is_expired normalize_enroll_code text_eq IsRefused
guesses_burn_example =
    guesses_burn ascii_tables text_eq store (guess (codes "ABCDEFGHJKMP"))
      (guess (codes "ABCDEFGHJKMQ")
        ∷ guess (codes "ABCDEFGHJKMR")
        ∷ guess (codes "ABCDEFGHJKMS")
        ∷ guess (codes "ABCDEFGHJKMT")
        ∷ [])
      store_held (refl, refl, (refl, refl, (refl, refl, (refl, refl, (refl, refl, tt)))))
      (omega arith)

abbrev other : EnrollEntry
other = record issued { id = codes "2"; code_hash = codes "222222222222" }

abbrev two_codes : EnrollStore
two_codes = record store { entries = (codes "1", issued) ∷ (codes "2", other) ∷ [] }

abbrev guess_seen : Text → Guess
guess_seen code = record { now = 5 * second; outcome = saved 9; code = code }

two_codes_held : IsHeld two_codes
unfolding refresh refresh_from
two_codes_held = λ m. refl

redeem_once_example : text_eq (codes "2") (codes "1") ≡ false
unfolding redeem redeem_found redeemed find_code current prune charge retain erase refresh
    refresh_from save is_expired normalize_enroll_code text_eq redeem_all
redeem_once_example =
    redeem_once ascii_tables text_eq two_codes (guess_seen good_code)
      (guess_seen (codes "ABCDEFGHJKMP") ∷ []) (guess_seen (codes "222222222222")) issued
      (record other { attempts = 1 }) two_codes_held (refl, (refl, tt)) refl (refl, tt) refl refl
