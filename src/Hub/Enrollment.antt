-- ===== src/Hub/Enrollment.antt =====
-- The exchange of a code for a token: handleEnroll of hub/hub.go.
pub mod Rollback
pub mod Tests
use talkeqidea.Common.{
  ℕ, ◌/◌, ◌≡◌, Bool, true, false, not, List, Option, none, some, Text, ◌==◌, if◌then◌else◌, Result,
  ok, err,
}
use talkeqidea.Golang.Strings.{Unicode}
use talkeqidea.Relay.Event.{protocol_version}
use talkeqidea.Guard.Core.{Netip, Guard, record_auth_failure}
use talkeqidea.Hub.Store.{SaveOutcome}
use talkeqidea.Hub.Roster.{Roster, RosterError, Minted, add, remove}
use talkeqidea.Hub.Enroll.{EnrollEntry, EnrollStore, EnrollError, second, redeem}

-- A `relay.Enroll`, as it was decoded.
pub record Enroll : Type 0 where
  pub protocol_version : ℕ
  pub code : Text
  pub version : Text

-- The parts of the hub that the exchange changes.
pub record Front (P : Type 0) : Type 0 where
  pub guard : Guard P
  pub enroll : EnrollStore
  pub roster : Roster

-- How the writes of the two files end, in the order in which they are made.
pub record Writes : Type 0 where
  pub redeemed : SaveOutcome
  pub added : SaveOutcome
  pub removed : SaveOutcome

-- What the agent is told, if anything; `undelivered` carries the key of the server.
pub data Answer : Type 0 where
  no_answer version_mismatch not_accepted not_issued : Answer
  add_refused : RosterError → Answer
  enrolled : Text → Text → Text → Answer
  undelivered : Text → Answer

module _ (n : Netip) (u : Unicode) (verify : Text → Text → Bool) where
  open n use {Prefix}

  -- The token is written to the socket; where that fails the agent is removed again.
  unfoldable pub deliver_token :
      Front Prefix
      → Writes
      → Bool
      → Bool
      → EnrollEntry
      → Roster × Result RosterError Text
      → Front Prefix × Answer
  deliver_token f writes is_encoded is_delivered e (r, err why) =
      (record f { roster = r }, add_refused why)
  deliver_token f writes is_encoded is_delivered e (r, ok token) =
      if not is_encoded
      then (record f { roster = r }, not_issued)
      else if is_delivered
      then (record f { roster = r }, enrolled e.server_key e.short_name token)
      else (
        record f { roster = (remove u r e.server_key writes.removed).0 },
        undelivered e.server_key,
      )

  unfoldable pub enroll_redeemed :
      Front Prefix
      → ℕ
      → Text
      → Writes
      → Minted
      → Bool
      → Bool
      → EnrollStore × Result EnrollError EnrollEntry
      → Front Prefix × Answer
  enroll_redeemed f now remote writes minted is_encoded is_delivered (s, err _) =
      (record f { enroll = s; guard = record_auth_failure n f.guard now remote }, not_accepted)
  enroll_redeemed f now remote writes minted is_encoded is_delivered (s, ok e) =
      deliver_token (record f { enroll = s }) writes is_encoded is_delivered e
        (add u f.roster e.server_key e.short_name (now / second) writes.added minted)

  unfoldable pub handle_enroll :
      Front Prefix
      → ℕ
      → Text
      → Writes
      → Minted
      → Bool
      → Bool
      → Option Enroll
      → Front Prefix × Answer
  handle_enroll f now remote writes minted is_encoded is_delivered none = (f, no_answer)
  handle_enroll f now remote writes minted is_encoded is_delivered (some req) =
      let exchanged =
        enroll_redeemed f now remote writes minted is_encoded is_delivered
          (redeem u verify f.enroll now writes.redeemed req.code) in
      if req.protocol_version == protocol_version then exchanged else (f, version_mismatch)
