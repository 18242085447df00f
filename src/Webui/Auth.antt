-- ===== src/Webui/Auth.antt =====
-- webui/auth.go: who may use the pages. Random tokens are what `randomToken` returns, if it does.
pub mod LogIn
pub mod Password
pub mod LogOut
mod Tests
use mathlib.Core.Option
use talkeqidea.Common.{
  ℕ, ◌+◌, ◌-◌, ◌*◌, ◌≡◌, Bool, true, false, not, ◌||◌, ◌&&◌, ◌==◌, List, [], ◌∷◌, Option, none,
  some, Text, codes, is_empty, text_eq, ltb, if◌then◌else◌, TextMap, lookup, insert, erase, retain,
  Result, ok, err,
}
use talkeqidea.Golang.Strings.{trim_space}
use talkeqidea.Guard.Core.{
  Netip, Guard, Rejection, minute, new_guard, allow_connection, record_auth_failure,
  record_auth_success,
}

abbrev pub session_ttl : ℕ
session_ttl = 8 * (60 * minute)

abbrev pub session_sweep_every : ℕ
session_sweep_every = 10 * minute

pub record LoginSession : Type 0 where
  pub csrf : Text
  pub expires_at : ℕ

pub record SessionStore : Type 0 where
  pub sessions : TextMap LoginSession
  pub last_sweep : ℕ

unfoldable pub new_session_store : ℕ → SessionStore
new_session_store now = record { sessions = []; last_sweep = now }

unfoldable pub sweep : SessionStore → ℕ → SessionStore
sweep s now = if ltb (now - s.last_sweep) session_sweep_every then s else record {
  sessions = retain (λ found. not (ltb found.expires_at now)) s.sessions;
  last_sweep = now;
}

unfoldable pub put : SessionStore → ℕ → Text → Text → SessionStore
put s now id csrf = record s {
  sessions = insert id (record { csrf = csrf; expires_at = now + session_ttl }) s.sessions;
}

-- The identifier and the token of a new session, where both can be made.
unfoldable pub create :
    SessionStore → ℕ → Option Text → Option Text → SessionStore × Option (Text × Text)
create s now none csrf = (s, none)
create s now (some id) none = (s, none)
create s now (some id) (some csrf) = (put (sweep s now) now id csrf, some (id, csrf))

unfoldable pub get_found :
    SessionStore → ℕ → Text → Option LoginSession → SessionStore × Option LoginSession
get_found s now id none = (s, none)
get_found s now id (some found) =
    let extended : LoginSession = record found { expires_at = now + session_ttl } in
    if ltb found.expires_at now
    then (record s { sessions = erase id s.sessions }, none)
    else (record s { sessions = insert id extended s.sessions }, some extended)

unfoldable pub get : SessionStore → ℕ → Text → SessionStore × Option LoginSession
get s now id = if is_empty id then (s, none) else get_found s now id (lookup id s.sessions)

unfoldable pub destroy : SessionStore → Text → SessionStore
destroy s id = record s { sessions = erase id s.sessions }

-- What the handlers keep between requests.
pub record WebServer (P : Type 0) : Type 0 where
  pub guard : Guard P
  pub sessions : SessionStore
  pub password_hash : Text

pub data LoginReply : Type 0 where
  method_not_allowed malformed no_password incorrect not_started : LoginReply
  too_many : Rejection → LoginReply
  logged_in : Text → Text → LoginReply

unfoldable pub started :
    {P : Type 0} → WebServer P → SessionStore × Option (Text × Text) → WebServer P × LoginReply
started w (s, none) = (record w { sessions = s }, not_started)
started w (s, some (id, csrf)) = (record w { sessions = s }, logged_in id csrf)

module _ (n : Netip) (verify : Text → Text → Bool) where
  open n use {Prefix}

  -- A password that was decoded from the request.
  unfoldable pub check_password :
      WebServer Prefix
      → ℕ
      → Text
      → Option Text
      → Option Text
      → Option Text
      → WebServer Prefix × LoginReply
  check_password w now remote id csrf none = (w, malformed)
  check_password w now remote id csrf (some password) =
      if is_empty w.password_hash
      then (w, no_password)
      else if verify password w.password_hash
      then started (record w { guard = record_auth_success n w.guard remote })
          (create w.sessions now id csrf)
      else (record w { guard = record_auth_failure n w.guard now remote }, incorrect)

  unfoldable pub login_allowed :
      WebServer Prefix
      → ℕ
      → Text
      → Option Text
      → Option Text
      → Option Text
      → Result Rejection (Unit {0})
      → WebServer Prefix × LoginReply
  login_allowed w now remote id csrf body (err r) = (w, too_many r)
  login_allowed w now remote id csrf body (ok _) = check_password w now remote id csrf body

  unfoldable pub handle_login :
      WebServer Prefix
      → ℕ
      → Text
      → Option Text
      → Option Text
      → Bool
      → Option Text
      → WebServer Prefix × LoginReply
  handle_login w now remote id csrf is_post body =
      let (guard, decision) = allow_connection n w.guard now remote 0 in
      if is_post
      then login_allowed (record w { guard = guard }) now remote id csrf body decision
      else (w, method_not_allowed)

-- With the cookie of the request, if it has one.
unfoldable pub handle_logout : {P : Type 0} → WebServer P → Option Text → WebServer P
handle_logout w none = w
handle_logout w (some id) = record w { sessions = destroy w.sessions id }

pub data Access : Type 0 where
  not_logged_in session_expired invalid_csrf passed : Access

unfoldable pub check_csrf : Bool → Text → Option LoginSession → Access
check_csrf is_get supplied none = session_expired
check_csrf is_get supplied (some found) =
    if is_get || text_eq supplied found.csrf then passed else invalid_csrf

-- Whether the handler behind it runs; what follows changes the store no more.
unfoldable pub require_auth : SessionStore → ℕ → Option Text → Bool → Text → SessionStore × Access
require_auth s now none is_get supplied = (s, not_logged_in)
require_auth s now (some cookie) is_get supplied =
    let (s', found) = get s now cookie in (s', check_csrf is_get supplied found)

unfoldable pub new_login_guard : (n : Netip) → ℕ → Result Text (Guard n.Prefix)
new_login_guard n now =
    new_guard n
      (record {
        max_agents = 0;
        connections_per_minute = 20;
        auth_failures_before_ban = 5;
        ban_duration = 5 * minute;
        allowed_networks = [];
      })
      now

unfoldable pub later_colon : ℕ → Option Text → Option Text
later_colon c (some host) = some (c ∷ host)
later_colon c none = if c == b':' then some [] else none

-- What stands before the last colon.
unfoldable pub before_last_colon : Text → Option Text
before_last_colon [] = none
before_last_colon (c ∷ cs) = later_colon c (before_last_colon cs)

abbrev is_bracket : ℕ → Bool
is_bracket c = c == b'[' || c == b']'

unfoldable pub trim_left_brackets : Text → Text
trim_left_brackets [] = []
trim_left_brackets (c ∷ cs) =
    let rest = trim_left_brackets cs in if is_bracket c then rest else c ∷ cs

unfoldable pub trim_right_brackets : Text → Text
trim_right_brackets [] = []
trim_right_brackets (c ∷ cs) =
    let rest = trim_right_brackets cs in if is_empty rest && is_bracket c then [] else c ∷ rest

unfoldable pub is_loopback : Text → Bool
is_loopback listen =
    let bound = trim_space listen in
    let host =
      trim_right_brackets (trim_left_brackets (Option.get_or (before_last_colon bound) bound)) in
    text_eq host (codes "127.0.0.1")
    || text_eq host (codes "::1")
    || text_eq host (codes "localhost")
