-- ===== src/Agent/Enroll/Trust.antt =====
-- Which hub is sent an enrollment code: agent/enroll.go.
use talkeqidea.Common.{
  Bool, Option, none, some, ◌≡◌, ◌⊎◌, inl, inr, true, false, not, List, [], ◌∷◌, Text, text_eq_iff,
  is_empty, Result, ok, err, ok-injective, >>=-eq-ok, refuse_if-eq-ok, arith, refl, ap, ◌∙◌,
}
use talkeqidea.Relay.Frame.{Frame}
use talkeqidea.Relay.EnrollCode.{validate_enroll_code}
use talkeqidea.Agent.Enroll.{
  EnrollWorld, EnrollOptions, EnrollResult, EnrollError, Peer, normalize_fingerprint, code_checked,
  dial_address, enroll_frame, verify_peer, handshake, dial, confirm_seen, ask, answered, Confirm,
  prepare, enroll_from, enroll,
}

module _ (w : EnrollWorld) (opts : EnrollOptions) where
  -- What the options expect of a fingerprint.
  abbrev expected : Text
  expected = normalize_fingerprint w.unicode opts.expect_fingerprint

  -- An operator who can be asked agreed to a fingerprint.
  abbrev pub IsAgreed : Text → Option Confirm → Type 0
  IsAgreed seen none = Unit
  IsAgreed seen (some confirm) = confirm seen ≡ ok true

  -- The fingerprint is the one that was expected; or none was, and the operator agreed, where there
  -- is one to ask.
  abbrev pub IsTrusted : Text → Type 0
  IsTrusted seen = (seen ≡ expected) ⊎ ((expected ≡ []) × IsAgreed seen opts.confirm_fingerprint)

  answered-ok : (answer : Result Text Bool) → answered w answer ≡ ok tt → answer ≡ ok true
  unfolding answered
  answered-ok (err why) h = absurd (cc)
  answered-ok (ok true) h = refl
  answered-ok (ok false) h = absurd (cc)

  ask-IsAgreed :
      (seen : Text) (confirm : Option Confirm) → ask w seen confirm ≡ ok tt → IsAgreed seen confirm
  unfolding ask
  ask-IsAgreed seen none h = tt
  ask-IsAgreed seen (some confirm) h = answered-ok (confirm seen) h

  is_empty-nil : (s : Text) → is_empty s ≡ true → s ≡ []
  is_empty-nil [] h = refl
  is_empty-nil (c ∷ s) h = absurd (cc)

  verify_peer-ok :
      (want seen : Text) (certs : List Text)
      → verify_peer w want certs ≡ ok seen
      → (cert : Text) × (rest : List Text) × (certs ≡ cert ∷ rest)
        × (seen ≡ w.fingerprint_of cert)
        × ((is_empty want ≡ true) ⊎ (seen ≡ want))
  unfolding verify_peer
  verify_peer-ok want seen [] h = absurd (cc)
  verify_peer-ok want seen (cert ∷ rest) h =
      (cert, rest, refl, ground arith, ground (arith, text_eq_iff (w.fingerprint_of cert) want))

  confirm_seen-IsTrusted :
      (seen : Text)
      → confirm_seen w opts seen ≡ ok tt
      → (is_empty (normalize_fingerprint w.unicode opts.expect_fingerprint) ≡ true)
        ⊎ (seen ≡ normalize_fingerprint w.unicode opts.expect_fingerprint)
      → is_empty seen ≡ false
      → IsTrusted seen
  unfolding confirm_seen
  confirm_seen-IsTrusted seen done (inr pinned) is_seen = inl pinned
  confirm_seen-IsTrusted seen done (inl unpinned) is_seen =
      inr
        (is_empty-nil expected unpinned, ask-IsAgreed seen opts.confirm_fingerprint (ground arith))

  dial-ok :
      (peer : Peer) (seen : Text)
      → opts.is_plaintext ≡ false
      → dial w opts peer ≡ ok seen
      → verify_peer w (normalize_fingerprint w.unicode opts.expect_fingerprint) peer.certificates
        ≡ ok seen
  unfolding dial handshake
  dial-ok peer seen encrypted h =
      let (found, h1, shook) = >>=-eq-ok _ (handshake w opts peer) h in
      let (reached, h2) = refuse_if-eq-ok (not peer.is_reached) _ _ h1 in
      let same : found ≡ seen = ok-injective h2 in ground arith

  prepare-ok :
      (peer : Peer) (seen : Text) (f : Frame)
      → prepare w opts peer ≡ ok (seen, f)
      → (dial w opts peer ≡ ok seen) × (confirm_seen w opts seen ≡ ok tt)
  unfolding prepare
  prepare-ok peer seen f h =
      let (_, h1, valid) =
        >>=-eq-ok _ (code_checked (validate_enroll_code w.unicode opts.code)) h in
      let (addressed, h2) = refuse_if-eq-ok (is_empty (dial_address opts.hub_address)) _ _ h1 in
      let (found, h3, dialled) = >>=-eq-ok _ (dial w opts peer) h2 in
      let (_, h4, confirmed) = >>=-eq-ok _ (confirm_seen w opts found) h3 in
      let (request, h5, framed) = >>=-eq-ok _ (enroll_frame w opts) h4 in
      let pair : (found, request) ≡ (seen, f) = ok-injective h5 in
      let same : found ≡ seen = ap (λ p. p.0) pair in (dialled ∙ ap ok same, rw (← same) confirmed)

  enroll_from-sent :
      (peer : Peer) (prepared : Result EnrollError (Text × Frame)) (f : Frame) (fs : List Frame)
      (result : Result EnrollError EnrollResult)
      → enroll_from w peer prepared ≡ (f ∷ fs, result)
      → (seen : Text) × (prepared ≡ ok (seen, f))
  unfolding enroll_from
  enroll_from-sent peer (err why) f fs result h = absurd (cc)
  enroll_from-sent peer (ok (seen, request)) f fs result h = (seen, cc)

  -- Over TLS, where no certificate has an empty fingerprint, a hub is sent something only when the
  -- first certificate that it presented has the fingerprint that the options expect; or they expect
  -- none, and the operator agreed to that fingerprint where the options have someone to ask.
  pub enroll-IsTrusted :
      (peer : Peer) (f : Frame) (fs : List Frame) (result : Result EnrollError EnrollResult)
      → opts.is_plaintext ≡ false
      → ((cert : Text) → is_empty (w.fingerprint_of cert) ≡ false)
      → enroll w opts peer ≡ (f ∷ fs, result)
      → (cert : Text) × (rest : List Text) × (peer.certificates ≡ cert ∷ rest)
        × IsTrusted (w.fingerprint_of cert)
  unfolding enroll
  enroll-IsTrusted peer f fs result encrypted has_fingerprint h =
      let (seen, prepared) = enroll_from-sent peer (prepare w opts peer) f fs result h in
      let (dialled, confirmed) = prepare-ok peer seen f prepared in
      let want = normalize_fingerprint w.unicode opts.expect_fingerprint in
      let (cert, rest, presented, seen_it, matched) =
        verify_peer-ok want seen peer.certificates (dial-ok peer seen encrypted dialled) in
      (
        cert,
        rest,
        presented,
        rw (← seen_it) (
            confirm_seen-IsTrusted seen confirmed matched
              (ap is_empty seen_it ∙ has_fingerprint cert)),
      )
