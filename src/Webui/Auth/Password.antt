-- ===== src/Webui/Auth/Password.antt =====
-- What a log-in takes.
use talkeqidea.Common.{
  ℕ, ◌≡◌, inl, inr, refl, Bool, true, false, Bool-cases, Option, none, some, Text, is_empty, Result,
  ok, err,
}
use talkeqidea.Guard.Core.{Netip, Rejection, allow_connection}
use talkeqidea.Webui.Auth.{WebServer, logged_in, check_password, login_allowed, handle_login}

module _ (n : Netip) (verify : Text → Text → Bool) where
  open n use {Prefix}

  -- What is known of a request that was answered with a session.
  pub record IsProven (w : WebServer Prefix) (now : ℕ) (remote : Text) (body : Option Text)
      : Type 0 where
    pub password : Text
    pub decoded : body ≡ some password
    pub hash_set : is_empty w.password_hash ≡ false
    pub verified : verify password w.password_hash ≡ true

  check_password-logged_in :
      (w : WebServer Prefix) (now : ℕ) (remote : Text) (id csrf body : Option Text) (i c : Text)
      → (check_password n verify w now remote id csrf body).1 ≡ logged_in i c
      → IsProven w now remote body
  unfolding check_password
  check_password-logged_in w now remote id csrf none i c h = absurd (cc)
  check_password-logged_in w now remote id csrf (some password) i c h =
      elim (Bool-cases (is_empty w.password_hash)) [
        | inl unset ↦ absurd (cc (rw unset at h))
        | inr set ↦ elim (Bool-cases (verify password w.password_hash)) [
          | inl fits ↦ record {
            password = password;
            decoded = refl;
            hash_set = set;
            verified = fits;
          }
          | inr wrong ↦ absurd (cc (rw (set, wrong) at h))
        ]
      ]

  login_allowed-logged_in :
      (w : WebServer Prefix) (now : ℕ) (remote : Text) (id csrf body : Option Text)
      → (d : Result Rejection (Unit {0})) (i c : Text)
      → (login_allowed n verify w now remote id csrf body d).1 ≡ logged_in i c
      → (d ≡ ok tt) × IsProven w now remote body
  unfolding login_allowed
  login_allowed-logged_in w now remote id csrf body (err r) i c h = absurd (cc)
  login_allowed-logged_in w now remote id csrf body (ok _) i c h =
      (refl, check_password-logged_in w now remote id csrf body i c h)

  -- A request is answered with a session only when it is a POST that the guard let in, an admin
  -- password is set, and the request carries a password that verifies against it.
  pub handle_login_sound :
      (w : WebServer Prefix) (now : ℕ) (remote : Text) (id csrf : Option Text) (is_post : Bool)
      → (body : Option Text) (i c : Text)
      → (handle_login n verify w now remote id csrf is_post body).1 ≡ logged_in i c
      → (is_post ≡ true)
        × ((allow_connection n w.guard now remote 0).1 ≡ ok tt)
        × IsProven w now remote body
  unfolding handle_login
  handle_login_sound w now remote id csrf false body i c h = absurd (cc)
  handle_login_sound w now remote id csrf true body i c h =
      let d = allow_connection n w.guard now remote 0 in
      let (allowed, p) =
        login_allowed-logged_in (record w { guard = d.0 }) now remote id csrf body d.1 i c h in
      (
        refl,
        allowed,
        record {
          password = p.password;
          decoded = p.decoded;
          hash_set = p.hash_set;
          verified = p.verified;
        },
      )
