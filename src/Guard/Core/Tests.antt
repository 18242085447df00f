-- ===== src/Guard/Core/Tests.antt =====
-- A guard that bans after three failures, after guard/guard_test.go.
use talkeqidea.Common.{
  ◌*◌, ◌≡◌, refl, [], ◌∷◌, none, some, arith, Text, codes, text_eq, lookup, is_empty, if◌then◌else◌,
  err,
}
use talkeqidea.Guard.Core.{
  Netip, Limits, Guard, at_limit, max_ban, minute, ban_for, double_ban, host_of, allow_connection,
  sweep, is_allowed, admit_listed, standing_ban,
}
use talkeqidea.Guard.Core.Bans.{ban_from, fail_all, brute_force_banned}

-- Addresses as their text, and no ports.
abbrev text_netip : Netip
text_netip = record {
  Addr = Text;
  Prefix = Text;
  parse_addr = λ s. if is_empty s then none else some s;
  parse_prefix = λ s. none;
  masked = λ p. p;
  whole = λ a. a;
  unmap = λ a. a;
  contains = text_eq;
  split_host_port = λ s. some s;
}

abbrev limits : Limits
limits = record {
  max_agents = 2;
  connections_per_minute = 0;
  auth_failures_before_ban = 3;
  ban_duration = minute;
  allowed_networks = [];
}

abbrev fresh : Guard Text
fresh = record {
  limits = limits;
  allowed = [];
  conns = [];
  failures = [];
  bans = [];
  last_sweep = 0;
}

third_offence : ban_for minute 3 ≡ 4 * minute
unfolding ban_for double_ban
third_offence = refl

capped_at_a_day : ban_for minute 20 ≡ max_ban
unfolding ban_for double_ban
capped_at_a_day = refl

full_hub_refused : (allow_connection text_netip fresh 5 (codes "a") 2).1 ≡ err (at_limit 2)
unfolding allow_connection sweep is_allowed admit_listed standing_ban lookup
full_hub_refused = refl

abbrev banned : Guard Text
banned = record fresh { bans = (codes "a", record { until = 100; reason = codes "r" }) ∷ [] }

brute_force_banned_example :
    lookup
      (host_of text_netip (codes "a"))
      (fail_all text_netip fresh (codes "a") (5 ∷ 6 ∷ 7 ∷ [])).bans
    ≡ some (ban_from limits 7 1)
unfolding lookup
brute_force_banned_example =
    brute_force_banned text_netip fresh (codes "a") 5 (6 ∷ 7 ∷ []) refl (omega arith) refl
