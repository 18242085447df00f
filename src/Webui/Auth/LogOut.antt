-- ===== src/Webui/Auth/LogOut.antt =====
-- What ends a log-in.
use talkeqidea.Common.{
  ℕ, ◌≡◌, inl, inr, refl, Bool, false, not, Bool-cases, List, [], ◌∷◌, Option, none, some, arith,
  All, Text, is_empty, text_eq, text_eq_iff, text_eq_refl, ltb, TextMap, lookup, erase, retain,
  lookup-insert, lookup-erase,
}
use talkeqidea.Webui.Auth.{
  LoginSession, SessionStore, WebServer, sweep, put, create, get, get_found, destroy, require_auth,
  check_csrf, session_expired, handle_logout,
}

-- What requests do to the store, at a time. A session that could not be made is no request.
pub data Use : Type 0 where
  created : ℕ → Text → Text → Use
  asked : ℕ → Text → Use
  destroyed : Text → Use

unfoldable pub use_store : SessionStore → Use → SessionStore
use_store s (created now id csrf) = (create s now (some id) (some csrf)).0
use_store s (asked now id) = (get s now id).0
use_store s (destroyed id) = destroy s id

unfoldable pub use_all : SessionStore → List Use → SessionStore
use_all s [] = s
use_all s (x ∷ xs) = use_all (use_store s x) xs

-- The identifier is not given to a new session.
unfoldable pub IsNotIssued : Text → Use → Type 0
IsNotIssued id (created now other csrf) = text_eq other id ≡ false
IsNotIssued id (asked now other) = Unit
IsNotIssued id (destroyed other) = Unit

retain-none :
    {V : Type 0} (p : V → Bool) (id : Text) (m : TextMap V)
    → lookup id m ≡ none
    → lookup id (retain p m) ≡ none
unfolding lookup retain
retain-none p id [] h = refl
retain-none p id ((at, v) ∷ m) h = ground (arith, retain-none p id m)

sweep-none :
    (s : SessionStore) (now : ℕ) (id : Text)
    → lookup id s.sessions ≡ none
    → lookup id (sweep s now).sessions ≡ none
unfolding sweep
sweep-none s now id h =
    ground (arith, retain-none (λ found. not (ltb found.expires_at now)) id s.sessions)

get_found-none :
    (s : SessionStore) (now : ℕ) (id other : Text) (found : Option LoginSession)
    → lookup other s.sessions ≡ found
    → lookup id s.sessions ≡ none
    → lookup id (get_found s now other found).0.sessions ≡ none
unfolding get_found
get_found-none s now id other none e h = h
get_found-none s now id other (some f) e h = elim (Bool-cases (text_eq other id)) [
  | inl same ↦ let eq : other ≡ id = (text_eq_iff other id).0 same in absurd (cc (rw eq at e))
  | inr differs ↦ elim (Bool-cases (ltb f.expires_at now)) [
    | inl over ↦ rw (over, lookup-erase other id s.sessions, differs) h
    | inr live ↦ rw (live, lookup-insert other id _ s.sessions, differs) h
  ]
]

get-none :
    (s : SessionStore) (now : ℕ) (id other : Text)
    → lookup id s.sessions ≡ none
    → lookup id (get s now other).0.sessions ≡ none
unfolding get
get-none s now id other h = elim (Bool-cases (is_empty other)) [
  | inl nothing ↦ rw nothing h
  | inr something ↦ rw something (get_found-none s now id other (lookup other s.sessions) refl h)
]

use_store-none :
    (s : SessionStore) (id : Text) (x : Use)
    → IsNotIssued id x
    → lookup id s.sessions ≡ none
    → lookup id (use_store s x).sessions ≡ none
unfolding use_store create put destroy IsNotIssued
use_store-none s id (created now other csrf) i h =
    rw (lookup-insert other id _ (sweep s now).sessions, i) (sweep-none s now id h)
use_store-none s id (asked now other) i h = get-none s now id other h
use_store-none s id (destroyed other) i h =
    rw (lookup-erase other id s.sessions) (elim (Bool-cases (text_eq other id)) [
      | inl same ↦ rw same refl
      | inr differs ↦ rw differs h
    ])

use_all-none :
    (s : SessionStore) (id : Text) (xs : List Use)
    → All (IsNotIssued id) xs
    → lookup id s.sessions ≡ none
    → lookup id (use_all s xs).sessions ≡ none
unfolding use_all
use_all-none s id [] i h = h
use_all-none s id (x ∷ xs) (i, is) h =
    use_all-none (use_store s x) id xs is (use_store-none s id x i h)

unknown-expired :
    (s : SessionStore) (now : ℕ) (id : Text) (is_get : Bool) (supplied : Text)
    → lookup id s.sessions ≡ none
    → (require_auth s now (some id) is_get supplied).1 ≡ session_expired
unfolding require_auth get get_found check_csrf
unknown-expired s now id is_get supplied h = elim (Bool-cases (is_empty id)) [
  | inl nothing ↦ rw nothing refl
  | inr something ↦ rw (something, h) refl
]

-- After a log-out no request passes with the cookie of that session, whatever requests come
-- between, as long as no new session is given the same identifier.
pub logged_out :
    {P : Type 0} (w : WebServer P) (id : Text) (xs : List Use) (now : ℕ) (is_get : Bool)
    (supplied : Text)
    → All (IsNotIssued id) xs
    → (require_auth
        (use_all (handle_logout w (some id)).sessions xs)
        now
        (some id)
        is_get
        supplied).1
      ≡ session_expired
unfolding handle_logout destroy
logged_out w id xs now is_get supplied others =
    let gone : lookup id (erase id w.sessions.sessions) ≡ none =
      rw (lookup-erase id id w.sessions.sessions, text_eq_refl id) refl in
    unknown-expired _ now id is_get supplied (
      use_all-none (record w.sessions { sessions = erase id w.sessions.sessions }) id xs others
        gone)
