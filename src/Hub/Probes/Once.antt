-- ===== src/Hub/Probes/Once.antt =====
-- Which replies reach a probe that waits.
use talkeqidea.Common.{
  ℕ, ◌≡◌, inl, inr, refl, ◌∙◌, false, Option-cases, List, [], ◌∷◌, none, some, Text, text_eq,
  text_eq_refl, All, lookup, erase, lookup-insert_self, lookup-erase,
}
use talkeqidea.Relay.Frame.{ProbeReply}
use talkeqidea.Hub.Probes.{PendingTests, add, deliver, deliver_to}

-- Replies that come one after the other.
unfoldable pub deliver_all : PendingTests → List ProbeReply → PendingTests
deliver_all p [] = p
deliver_all p (r ∷ rs) = deliver_all (deliver p r).0 rs

abbrev pub AreOthers : Text → List ProbeReply → Type 0
AreOthers id = All (λ r. text_eq r.id id ≡ false)

deliver-other :
    (p : PendingTests) (r : ProbeReply) (id : Text)
    → text_eq r.id id ≡ false
    → lookup id (deliver p r).0.waiting ≡ lookup id p.waiting
unfolding deliver deliver_to
deliver-other p r id other = elim (Option-cases (lookup r.id p.waiting)) [
  | inl unknown ↦ rw unknown refl
  | inr (ch, found) ↦ rw (found, lookup-erase r.id id p.waiting, other) refl
]

deliver_all-others :
    (p : PendingTests) (rs : List ProbeReply) (id : Text)
    → AreOthers id rs
    → lookup id (deliver_all p rs).waiting ≡ lookup id p.waiting
unfolding deliver_all
deliver_all-others p [] id h = refl
deliver_all-others p (r ∷ rs) id (h, hs) =
    deliver_all-others (deliver p r).0 rs id hs ∙ deliver-other p r id h

deliver_found :
    (p : PendingTests) (r : ProbeReply) (ch : ℕ)
    → lookup r.id p.waiting ≡ some ch
    → deliver p r ≡ (record p { waiting = erase r.id p.waiting }, some (ch, r))
unfolding deliver deliver_to
deliver_found p r ch found = rw found refl

deliver_unknown :
    (p : PendingTests) (r : ProbeReply) → lookup r.id p.waiting ≡ none → deliver p r ≡ (p, none)
unfolding deliver deliver_to
deliver_unknown p r unknown = rw unknown refl

-- Whatever replies to other probes come first, the first reply to a probe is sent on the channel
-- that was made for it, and a later reply to the same probe is sent nowhere.
pub first_reply_only :
    (p : PendingTests) (rs : List ProbeReply) (reply late : ProbeReply)
    → AreOthers reply.id rs
    → late.id ≡ reply.id
    → let q = deliver_all (add p reply.id).0 rs in
      ((deliver q reply).1 ≡ some ((add p reply.id).1, reply))
      × ((deliver (deliver q reply).0 late).1 ≡ none)
unfolding add
first_reply_only p rs reply late others same =
    let q = deliver_all (add p reply.id).0 rs in
    let found : lookup reply.id q.waiting ≡ some p.next_channel =
      deliver_all-others (add p reply.id).0 rs reply.id others
      ∙ lookup-insert_self reply.id p.next_channel p.waiting in
    let after = record q { waiting = erase reply.id q.waiting } in
    let gone : lookup late.id after.waiting ≡ none =
      rw (same, lookup-erase reply.id reply.id q.waiting, text_eq_refl reply.id) refl in
    rw (deliver_found q reply p.next_channel found)
      (refl, rw (deliver_unknown after late gone) refl)
