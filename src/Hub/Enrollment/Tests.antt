-- ===== src/Hub/Enrollment/Tests.antt =====
-- A hub with one code outstanding and an agent that hangs up before it has its token.
use talkeqidea.Common.{
  ◌*◌, ◌≡◌, refl, true, false, [], ◌∷◌, none, some, Text, codes, text_eq, lookup, retain,
}
use talkeqidea.Golang.Tables.{ascii_tables}
use talkeqidea.Sanitize.{server_key}
use talkeqidea.Relay.EnrollCode.{normalize_enroll_code}
use talkeqidea.Guard.Core.{Netip, minute}
use talkeqidea.Hub.Store.{missing, saved, refresh, refresh_from, save}
use talkeqidea.Hub.Roster.{reread, add, add_if_new, add_minted, saved_or}
use talkeqidea.Hub.Enroll.{
  EnrollEntry, second, is_expired, redeem, redeem_found, redeemed, find_code, current, prune,
}
use talkeqidea.Hub.Enrollment.{Enroll, Front, Writes, handle_enroll, enroll_redeemed, deliver_token}
use talkeqidea.Hub.Enrollment.Rollback.{undelivered_removed}

abbrev pub text_netip : Netip
text_netip = record {
  Addr = Text;
  Prefix = Text;
  parse_addr = some;
  parse_prefix = some;
  masked = λ p. p;
  whole = λ a. a;
  unmap = λ a. a;
  contains = text_eq;
  split_host_port = some;
}

abbrev issued : EnrollEntry
issued = record {
  id = codes "1";
  code_hash = codes "ABCDEFGHJKMN";
  server_key = codes "east";
  short_name = codes "East";
  expires_at = 900;
  created_at = 0;
  attempts = 0;
}

abbrev pub front : Front Text
front = record {
  guard = record {
    limits = record {
      max_agents = 2;
      connections_per_minute = 0;
      auth_failures_before_ban = 3;
      ban_duration = minute;
      allowed_networks = [];
    };
    allowed = [];
    conns = [];
    failures = [];
    bans = [];
    last_sweep = 0;
  };
  enroll = record { entries = (codes "1", issued) ∷ []; loaded_mod_time = 0; disk = missing };
  roster = record { entries = []; loaded_mod_time = 0; disk = missing };
}

abbrev pub writes : Writes
writes = record { redeemed = saved 1; added = saved 2; removed = saved 3 }

abbrev request : Enroll
request = record { protocol_version = 1; code = codes "abcd-efgh-jkmn"; version = [] }

undelivered_removed_example :
    lookup
      (server_key ascii_tables (codes "east"))
      (reread
        (handle_enroll text_netip ascii_tables text_eq front
          (5 * second)
          (codes "a")
          writes
          (some (codes "t", codes "t"))
          true
          false
          (some request)).0.roster).entries
    ≡ none
unfolding handle_enroll enroll_redeemed deliver_token redeem redeem_found redeemed find_code current
    prune retain refresh refresh_from save is_expired normalize_enroll_code text_eq add add_if_new
    add_minted saved_or server_key lookup
undelivered_removed_example =
    undelivered_removed text_netip ascii_tables text_eq front (5 * second) (codes "a") writes
      (some (codes "t", codes "t")) true false (some request) (codes "east") 3 refl refl
