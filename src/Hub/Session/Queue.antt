-- ===== src/Hub/Session/Queue.antt =====
-- Frames that are sent one after the other to an open session.
use talkeqidea.Common.{
  ℕ, suc, ◌+◌, ◌-◌, ◌≤◌, ◌<◌, ◌≡◌, refl, sym, ap, ◌∙◌, true, false, Bool-cases, inl, inr, List, [],
  ◌∷◌, ◌++◌, append_assoc, append-nil, arith, length, length-append, drop, length-drop, drop_none,
  drop-append_le, drop-drop, ltb, ltb→lt,
}
use talkeqidea.Hub.Session.{Session, send}

module _ {F : Type 0} where
  unfoldable pub send_all : Session F → List F → Session F
  send_all s [] = s
  send_all s (f ∷ fs) = send_all (send s f) fs

  -- What one frame does to an open queue.
  record Sent (s : Session F) (f : F) (t : Session F) : Type 0 where
    queued : t.out ≡ drop (length s.out + 1 - s.capacity) (s.out ++ f ∷ [])
    counted : t.dropped ≡ s.dropped + (length s.out + 1 - s.capacity)
    fits : length t.out ≤ t.capacity
    same_capacity : t.capacity ≡ s.capacity
    still_open : t.is_done ≡ false

  send_room :
      (s : Session F) (f : F)
      → s.is_done ≡ false
      → length s.out < s.capacity
      → send s f ≡ record s { out = s.out ++ f ∷ [] }
  unfolding send
  send_room s f o l = let room : ltb (length s.out) s.capacity ≡ true = ground arith in ground arith

  send_shed :
      (s : Session F) (f x : F) (rest : List F)
      → s.is_done ≡ false
      → s.out ≡ x ∷ rest
      → suc (length rest) ≡ s.capacity
      → send s f ≡ record s { out = rest ++ f ∷ []; dropped = s.dropped + 1 }
  unfolding send
  send_shed s f x rest o e l =
      let full : ltb (suc (length rest)) s.capacity ≡ false = ground arith in
      let room : ltb (length rest) s.capacity ≡ true = ground arith in ground arith

  room-Sent :
      (s : Session F) (f : F) → s.is_done ≡ false → length s.out < s.capacity → Sent s f (send s f)
  room-Sent s f o l = rw (send_room s f o l) (record {
    queued = sym (drop_none (length s.out + 1 - s.capacity) (s.out ++ f ∷ []) (omega arith));
    counted = omega arith;
    fits = omega (arith, length-append s.out (f ∷ []));
    same_capacity = refl;
    still_open = o;
  })

  shed-Sent :
      (s : Session F) (f x : F) (rest : List F)
      → s.is_done ≡ false
      → s.out ≡ x ∷ rest
      → suc (length rest) ≡ s.capacity
      → Sent s f (send s f)
  shed-Sent s f x rest o e l =
      let one : length s.out + 1 - s.capacity ≡ 1 = omega (arith, ap length e) in
      rw (send_shed s f x rest o e l) (record {
        queued = rw one (rw e);
        counted = omega arith;
        fits = omega (arith, length-append rest (f ∷ []));
        same_capacity = refl;
        still_open = o;
      })

  send-Sent :
      (s : Session F) (f : F)
      → s.is_done ≡ false
      → 0 < s.capacity
      → length s.out ≤ s.capacity
      → Sent s f (send s f)
  send-Sent s f o c l = elim (Bool-cases (ltb (length s.out) s.capacity)) [
    | inl room ↦ room-Sent s f o (ltb→lt _ _ room)
    | inr full ↦ go s.out refl (ground arith)
  ]
    where
      go : (q : List F) → s.out ≡ q → length s.out ≡ s.capacity → Sent s f (send s f)
      go [] e k = absurd (omega (arith, ap length e))
      go (x ∷ rest) e k = shed-Sent s f x rest o e (omega (arith, ap length e))

  -- Frames sent to an open session one after the other, with no one reading: the queue is the last
  -- frames that fit, in order, and each of the others is counted as dropped.
  pub send_all-newest :
      (fs : List F) (s : Session F)
      → s.is_done ≡ false
      → 0 < s.capacity
      → length s.out ≤ s.capacity
      → let shed = length s.out + length fs - s.capacity in
        ((send_all s fs).out ≡ drop shed (s.out ++ fs))
        × ((send_all s fs).dropped ≡ s.dropped + shed)
        × (length (send_all s fs).out ≤ s.capacity)
  unfolding send_all
  send_all-newest [] s o c l = (
    sym (
        ap (λ (q : List F). drop (length s.out + 0 - s.capacity) q) (append-nil s.out)
        ∙ drop_none (length s.out + 0 - s.capacity) s.out (omega arith)),
    omega arith,
    l,
  )
  send_all-newest (f ∷ fs) s o c l =
      let t = send s f in
      let k = send-Sent s f o c l in
      let one = length s.out + 1 - s.capacity in
      let m = length t.out + length fs - t.capacity in
      let (kept, counted, fits) =
        send_all-newest fs t k.still_open (omega (arith, k.same_capacity)) k.fits in
      let long : length t.out ≡ length s.out + 1 - one =
        ap length k.queued
        ∙ length-drop one (s.out ++ f ∷ [])
        ∙ ap (λ (n : ℕ). n - one) (length-append s.out (f ∷ [])) in
      (
        kept
            ∙ ap (λ (q : List F). drop m (q ++ fs)) k.queued
            ∙ ap (λ (q : List F). drop m q)
                (drop-append_le one (s.out ++ f ∷ []) fs
                  (omega (arith, length-append s.out (f ∷ []))))
            ∙ drop-drop m one ((s.out ++ f ∷ []) ++ fs)
            ∙ ap (λ (q : List F). drop (one + m) q) (append_assoc s.out (f ∷ []) fs)
            ∙ ap (λ (n : ℕ). drop n (s.out ++ f ∷ fs))
                (let e : one + m ≡ length s.out + suc (length fs) - s.capacity =
                    omega (arith, long, k.same_capacity) in
                  e),
        omega (arith, counted, long, k.counted, k.same_capacity),
        omega (arith, fits, k.same_capacity),
      )
