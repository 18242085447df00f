-- ===== src/Webui/Auth/LogIn.antt =====
-- What a log-in is good for.
use talkeqidea.Common.{
  ℕ, ◌+◌, ◌-◌, ◌≤◌, ◌≡◌, inl, inr, refl, ap, ◌∙◌, Bool, false, not, ◌||◌, Bool-cases, List, [], ◌∷◌,
  Option, none, some, arith, All, Text, is_empty, text_eq, text_eq_iff, ltb, if◌then◌else◌, lookup,
  insert, lookup-insert, lookup-insert_self, lookup-erase, lookup-retain,
}
use talkeqidea.Webui.Auth.{
  LoginSession, SessionStore, session_ttl, session_sweep_every, sweep, put, create, get, get_found,
  destroy, passed, invalid_csrf, require_auth, check_csrf,
}
use talkeqidea.Webui.Auth.LogOut.{Use, created, asked, destroyed, use_store, use_all}

module _ (id csrf : Text) (start : ℕ) where
  -- A request within eight hours of the start that neither ends the session nor replaces it.
  unfoldable pub Spares : Use → Type 0
  Spares (created now other c) =
      (text_eq other id ≡ false) × (start ≤ now) × (now ≤ start + session_ttl)
  Spares (asked now other) = (start ≤ now) × (now ≤ start + session_ttl)
  Spares (destroyed other) = text_eq other id ≡ false

  record IsOpen (s : SessionStore) : Type 0 where
    session : LoginSession
    there : lookup id s.sessions ≡ some session
    same_csrf : session.csrf ≡ csrf
    lasts : start + session_ttl ≤ session.expires_at

  sweep-IsOpen :
      (s : SessionStore) (now : ℕ) → now ≤ start + session_ttl → IsOpen s → IsOpen (sweep s now)
  unfolding sweep
  sweep-IsOpen s now l h = elim (Bool-cases (ltb (now - s.last_sweep) session_sweep_every)) [
    | inl early ↦ rw early h
    | inr late ↦ rw late (record {
      session = h.session;
      there =
          lookup-retain (λ found. not (ltb found.expires_at now)) id h.session s.sessions h.there
            (ground (arith, h.lasts));
      same_csrf = h.same_csrf;
      lasts = h.lasts;
    })
  ]

  get_found-IsOpen :
      (s : SessionStore) (now : ℕ) (other : Text) (found : Option LoginSession)
      → lookup other s.sessions ≡ found
      → start ≤ now
      → now ≤ start + session_ttl
      → IsOpen s
      → IsOpen (get_found s now other found).0
  unfolding get_found
  get_found-IsOpen s now other none e a b h = h
  get_found-IsOpen s now other (some f) e a b h = elim (Bool-cases (text_eq other id)) [
    | inl same ↦
        let eq : other ≡ id = (text_eq_iff other id).0 same in
        let is_it : f ≡ h.session = ground (arith, h.there) in
        let live : ltb f.expires_at now ≡ false =
          ground (arith, h.lasts, ap (λ (g : LoginSession). g.expires_at) is_it) in
        rw live (record {
          session = record f { expires_at = now + session_ttl };
          there = rw eq (lookup-insert_self id _ s.sessions);
          same_csrf = ap (λ (g : LoginSession). g.csrf) is_it ∙ h.same_csrf;
          lasts = omega arith;
        })
    | inr differs ↦ elim (Bool-cases (ltb f.expires_at now)) [
      | inl over ↦ rw over (record {
        session = h.session;
        there = lookup-erase other id s.sessions ∙ rw differs h.there;
        same_csrf = h.same_csrf;
        lasts = h.lasts;
      })
      | inr live ↦ rw live (record {
        session = h.session;
        there = lookup-insert other id _ s.sessions ∙ rw differs h.there;
        same_csrf = h.same_csrf;
        lasts = h.lasts;
      })
    ]
  ]

  get-IsOpen :
      (s : SessionStore) (now : ℕ) (other : Text)
      → start ≤ now
      → now ≤ start + session_ttl
      → IsOpen s
      → IsOpen (get s now other).0
  unfolding get
  get-IsOpen s now other a b h = elim (Bool-cases (is_empty other)) [
    | inl nothing ↦ rw nothing h
    | inr something ↦
        rw something (get_found-IsOpen s now other (lookup other s.sessions) refl a b h)
  ]

  use_store-IsOpen : (s : SessionStore) (x : Use) → Spares x → IsOpen s → IsOpen (use_store s x)
  unfolding use_store create put destroy Spares
  use_store-IsOpen s (created now other c) (differs, a, b) h =
      let k = sweep-IsOpen s now b h in
      record {
        session = k.session;
        there = lookup-insert other id _ (sweep s now).sessions ∙ rw differs k.there;
        same_csrf = k.same_csrf;
        lasts = k.lasts;
      }
  use_store-IsOpen s (asked now other) (a, b) h = get-IsOpen s now other a b h
  use_store-IsOpen s (destroyed other) differs h = record {
    session = h.session;
    there = lookup-erase other id s.sessions ∙ rw differs h.there;
    same_csrf = h.same_csrf;
    lasts = h.lasts;
  }

  use_all-IsOpen :
      (s : SessionStore) (xs : List Use) → All Spares xs → IsOpen s → IsOpen (use_all s xs)
  unfolding use_all
  use_all-IsOpen s [] spare h = h
  use_all-IsOpen s (x ∷ xs) (p, ps) h =
      use_all-IsOpen (use_store s x) xs ps (use_store-IsOpen s x p h)

  open-passed :
      (s : SessionStore) (now : ℕ) (is_get : Bool) (supplied : Text)
      → is_empty id ≡ false
      → now ≤ start + session_ttl
      → IsOpen s
      → (require_auth s now (some id) is_get supplied).1
        ≡ (if is_get || text_eq supplied csrf then passed else invalid_csrf)
  unfolding require_auth get get_found check_csrf
  open-passed s now is_get supplied given b h =
      let live : ltb h.session.expires_at now ≡ false = ground (arith, h.lasts) in
      rw (given, h.there, live, h.same_csrf) refl

  -- For eight hours after a log-in a request with its cookie passes exactly when it is a GET or
  -- carries the session's own CSRF token, whatever other requests come in that time, as long as
  -- none of them logs the session out or makes a new one with the same identifier.
  pub login_lasts :
      (s : SessionStore) (xs : List Use) (now : ℕ) (is_get : Bool) (supplied : Text)
      → is_empty id ≡ false
      → All Spares xs
      → now ≤ start + session_ttl
      → (require_auth
          (use_all (create s start (some id) (some csrf)).0 xs)
          now
          (some id)
          is_get
          supplied).1
        ≡ (if is_get || text_eq supplied csrf then passed else invalid_csrf)
  unfolding create put
  login_lasts s xs now is_get supplied given spare b =
      let fresh : LoginSession = record { csrf = csrf; expires_at = start + session_ttl } in
      let first : SessionStore = record (sweep s start) {
        sessions = insert id fresh (sweep s start).sessions;
      } in
      open-passed (use_all first xs) now is_get supplied given b (
        use_all-IsOpen first xs spare (record {
          session = fresh;
          there = lookup-insert_self id fresh (sweep s start).sessions;
          same_csrf = refl;
          lasts = omega arith;
        }))
