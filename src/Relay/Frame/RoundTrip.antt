-- ===== src/Relay/Frame/RoundTrip.antt =====
-- A payload that is framed and decoded.
use talkeqidea.Common.{◌≡◌, false, some, arith, Text, is_empty, Option-cases, inl, inr}
use talkeqidea.Relay.Event.{FrameType}
use talkeqidea.Relay.Frame.{Json, Frame, framed, new_frame, decode}

module _ {A : Type 0} (j : Json A) where
  -- What the library writes is not empty, and is read back as it was.
  pub record IsFaithful : Type 0 where
    pub written : (a : A) (buf : Text) → j.marshal a ≡ some buf → is_empty buf ≡ false
    pub read_back : (a : A) (buf : Text) → j.marshal a ≡ some buf → j.unmarshal buf ≡ some a

  pub decode-new_frame :
      (t : FrameType) (a : A) (f : Frame)
      → IsFaithful
      → new_frame j t a ≡ some f
      → decode j f ≡ some a
  unfolding new_frame framed decode
  decode-new_frame t a f h made = elim (Option-cases (j.marshal a)) [
    | inl failed ↦ absurd (cc (rw failed at made))
    | inr (buf, wrote) ↦
        ground (arith, rw wrote at made, h.written a buf wrote, h.read_back a buf wrote)
  ]
