-- ===== src/Webui/Auth/Tests.antt =====
-- One operator logs in while another works.
use talkeqidea.Common.{
  ◌≡◌, ◌*◌, refl, true, false, List, [], ◌∷◌, some, arith, Text, codes, text_eq, lookup, ok,
}
use talkeqidea.Guard.Core.{
  minute, allow_connection, sweep, is_allowed, host_of, admit_listed, standing_ban,
}
use talkeqidea.Hub.Enrollment.Tests.{text_netip, front}
use talkeqidea.Webui.Auth.{
  WebServer, new_session_store, put, create, require_auth, passed, session_expired, handle_login,
  login_allowed, check_password, started, logged_in, handle_logout,
}
use talkeqidea.Webui.Auth.LogIn.{Spares, login_lasts}
use talkeqidea.Webui.Auth.Password.{IsProven, handle_login_sound}
use talkeqidea.Webui.Auth.LogOut.{Use, created, asked, destroyed, use_all, logged_out, IsNotIssued}

abbrev others : List Use
others =
    created (5 * minute) (codes "b") (codes "s")
    ∷ asked (6 * minute) (codes "a")
    ∷ destroyed (codes "b")
    ∷ []

login_lasts_example :
    (require_auth
      (use_all (create (new_session_store 0) 0 (some (codes "a")) (some (codes "t"))).0 others)
      (60 * minute)
      (some (codes "a"))
      false
      (codes "t")).1
    ≡ passed
unfolding Spares text_eq
login_lasts_example =
    login_lasts (codes "a") (codes "t") 0 (new_session_store 0) others (60 * minute) false
      (codes "t") refl ((refl, omega arith, omega arith), ((omega arith, omega arith), (refl, tt)))
      (omega arith)

abbrev web : WebServer Text
web = record {
  guard = front.guard;
  sessions = put (new_session_store 0) 0 (codes "a") (codes "t");
  password_hash = codes "p";
}

logged_out_example :
    (require_auth
      (use_all (handle_logout web (some (codes "a"))).sessions others)
      9
      (some (codes "a"))
      true
      (codes "t")).1
    ≡ session_expired
unfolding IsNotIssued text_eq
logged_out_example = logged_out web (codes "a") others 9 true (codes "t") (refl, (tt, (tt, tt)))

let_in :
    (handle_login text_netip text_eq web 9
      (codes "a")
      (some (codes "i"))
      (some (codes "c"))
      true
      (some (codes "p"))).1
    ≡ logged_in (codes "i") (codes "c")
unfolding handle_login login_allowed check_password started create allow_connection sweep is_allowed
    host_of admit_listed standing_ban lookup text_eq
let_in = refl

handle_login_sound_example :
    (true ≡ true)
    × ((allow_connection text_netip web.guard 9 (codes "a") 0).1 ≡ ok tt)
    × IsProven text_netip text_eq web 9 (codes "a") (some (codes "p"))
handle_login_sound_example =
    handle_login_sound text_netip text_eq web 9 (codes "a") (some (codes "i")) (some (codes "c"))
      true (some (codes "p")) (codes "i") (codes "c") let_in
