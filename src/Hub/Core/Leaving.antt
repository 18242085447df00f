-- ===== src/Hub/Core/Leaving.antt =====
-- What happens to the map when a connection ends.
use talkeqidea.Common.{
  ◌≡◌, refl, Bool, true, false, none, arith, text_eq_refl, ◌==◌, lookup, lookup-insert_self,
  lookup-erase,
}
use talkeqidea.Hub.Session.{Session}
use talkeqidea.Hub.Core.{Hub, add_session, is_same, remove_session, session_of}

module _ {F : Type 0} where
  remove-added :
      (h : Hub F) (gone new : Session F) (b : Bool)
      → gone.server_key ≡ new.server_key
      → (new.id == gone.id) ≡ b
      → is_same gone (lookup gone.server_key (add_session h new).sessions) ≡ b
  unfolding is_same add_session
  remove-added h gone new b same e = rw (same, lookup-insert_self new.server_key new h.sessions) e

  -- When the connection of an agent ends after the same agent has connected again, the newer
  -- session stays as it is; when the newer connection ends too, no session is left under the key.
  pub reconnected_stays :
      (h : Hub F) (old new : Session F)
      → old.server_key ≡ new.server_key
      → (new.id == old.id) ≡ false
      → (remove_session (add_session h new) old ≡ add_session h new)
        × (session_of (remove_session (add_session h new) new) new.server_key ≡ none)
  unfolding remove_session session_of
  reconnected_stays h old new same other = (
    rw (remove-added h old new false same other) refl,
    rw
        (
          remove-added h new new true refl (let e : (new.id == new.id) ≡ true = ground arith in e),
          lookup-erase new.server_key new.server_key (add_session h new).sessions,
          text_eq_refl new.server_key,
        )
        refl,
  )
