-- ===== src/Guard/Core.antt =====
-- guard/guard.go. Times and durations are nanoseconds; a Go duration or limit that is negative acts
-- as 0 in every test the code makes.
pub mod Bans
mod Tests
use talkeqidea.Common.{
  ℕ, zero, suc, ◌+◌, ◌-◌, ◌*◌, ◌≡◌, Bool, true, false, not, ◌&&◌, ◌||◌, List, [], ◌∷◌, ◌++◌, map,
  Option, none, some, Text, codes, any, is_empty, ltb, leb, ◌==◌, if◌then◌else◌, TextMap, lookup,
  insert, erase, retain, Result, ok, err, refuse_if, or_refuse, ◌>>=◌, ◌>>◌,
}
use mathlib.Core.Option
use talkeqidea.Golang.Strings.{trim_space}
use talkeqidea.Guard.Window.{Window, new_window, allow, retry_after, is_idle}

-- Packages net and net/netip.
pub record Netip : Type 1 where
  pub Addr : Type 0
  pub Prefix : Type 0
  pub parse_addr : Text → Option Addr
  pub parse_prefix : Text → Option Prefix
  pub masked : Prefix → Prefix
  pub whole : Addr → Prefix
  pub unmap : Addr → Addr
  pub contains : Prefix → Addr → Bool
  pub split_host_port : Text → Option Text

pub record Limits : Type 0 where
  pub max_agents : ℕ
  pub connections_per_minute : ℕ
  pub auth_failures_before_ban : ℕ
  pub ban_duration : ℕ
  pub allowed_networks : List Text

pub record FailureRecord : Type 0 where
  pub count : ℕ
  pub first_at : ℕ
  pub offences : ℕ

pub record BanRecord : Type 0 where
  pub until : ℕ
  pub reason : Text

pub record Guard (P : Type 0) : Type 0 where
  pub limits : Limits
  pub allowed : List P
  pub conns : TextMap Window
  pub failures : TextMap FailureRecord
  pub bans : TextMap BanRecord
  pub last_sweep : ℕ

abbrev pub second : ℕ
second = 1000000000

abbrev pub minute : ℕ
minute = 60 * second

abbrev pub failure_window : ℕ
failure_window = 10 * minute

abbrev pub max_ban : ℕ
max_ban = 24 * (60 * minute)

abbrev pub sweep_every : ℕ
sweep_every = minute

pub data Rejection : Type 0 where
  not_in_allowlist : Rejection
  blocked : Text → ℕ → Rejection
  at_limit : ℕ → Rejection
  too_many_attempts : ℕ → Rejection

-- The `RetryAfter` of a rejection, 0 where it is not set.
unfoldable pub retry_of : Rejection → ℕ
retry_of not_in_allowlist = 0
retry_of (blocked reason rest) = rest
retry_of (at_limit n) = 0
retry_of (too_many_attempts rest) = rest

abbrev pub repeated_failures : Text
repeated_failures = codes "repeated authentication failures"

-- The loop over the windows: each is trimmed, and an idle one goes.
unfoldable pub sweep_conns : ℕ → TextMap Window → TextMap Window
sweep_conns now [] = []
sweep_conns now ((ip, w) ∷ rest) =
    let others = sweep_conns now rest in
    if (is_idle w now).1 then others else (ip, (is_idle w now).0) ∷ others

abbrev pub ban_stands : ℕ → BanRecord → Bool
ban_stands now b = not (ltb b.until now)

unfoldable pub sweep : {P : Type 0} → Guard P → ℕ → Guard P
sweep g now = if ltb (now - g.last_sweep) sweep_every then g else record g {
  last_sweep = now;
  bans = retain (ban_stands now) g.bans;
  failures = retain (λ r. not (ltb (failure_window * 2) (now - r.first_at))) g.failures;
  conns = sweep_conns now g.conns;
}

-- The window of an address, a new one where it has none.
unfoldable pub window_or_new : Option Window → Window
window_or_new none = new_window minute
window_or_new (some w) = w

unfoldable pub settle_rate :
    {P : Type 0} → Guard P → ℕ → Text → Window × Bool → Guard P × Result Rejection (Unit {0})
settle_rate g now ip (w, passed) = (
  record g { conns = insert ip w g.conns },
  refuse_if (not passed) (too_many_attempts (retry_after w now)),
)

-- The limit on how often one address may connect.
unfoldable pub admit_rate :
    {P : Type 0} → Guard P → ℕ → Text → Guard P × Result Rejection (Unit {0})
admit_rate g now ip =
    settle_rate g now ip
      (allow (window_or_new (lookup ip g.conns)) now g.limits.connections_per_minute)

-- The ban of an address, if it is in force.
unfoldable pub standing_ban : ℕ → Option BanRecord → Option BanRecord
standing_ban now none = none
standing_ban now (some b) = if ltb now b.until then some b else none

-- What follows the allowlist.
unfoldable pub admit_listed :
    {P : Type 0} → Guard P → ℕ → Text → ℕ → Option BanRecord → Guard P × Result Rejection (Unit {0})
admit_listed g now ip current_agents (some b) = (g, err (blocked b.reason (b.until - now)))
admit_listed g now ip current_agents none =
    if ltb 0 g.limits.max_agents && leb g.limits.max_agents current_agents
    then (g, err (at_limit g.limits.max_agents))
    else if ltb 0 g.limits.connections_per_minute
    then admit_rate g now ip
    else (g, ok tt)

-- A failure record to count in: the old one, or a new one where that is missing or too old.
unfoldable pub current_failures : ℕ → Option FailureRecord → FailureRecord
current_failures now none = record { count = 0; first_at = now; offences = 0 }
current_failures now (some r) =
    if ltb failure_window (now - r.first_at)
    then record { count = 0; first_at = now; offences = r.offences }
    else r

-- The loop that doubles the ban: `i` runs from 1 to the number of offences.
unfoldable pub double_ban : ℕ → ℕ → ℕ
double_ban zero duration = duration
double_ban (suc rounds) duration =
    let again = double_ban rounds (duration * 2) in if ltb duration max_ban then again else duration

unfoldable pub ban_for : ℕ → ℕ → ℕ
ban_for base offences =
    let start = if base == 0 then 15 * minute else base in
    let doubled = double_ban (offences - 1) start in
    if ltb max_ban doubled then max_ban else doubled

unfoldable pub count_failure : {P : Type 0} → Guard P → ℕ → Text → FailureRecord → Guard P
count_failure g now ip r =
    if ltb (r.count + 1) g.limits.auth_failures_before_ban
    then record g { failures = insert ip (record r { count = r.count + 1 }) g.failures }
    else record g {
      failures =
          insert ip (record { count = 0; first_at = now; offences = r.offences + 1 }) g.failures;
      bans =
          insert ip
            (record {
              until = now + ban_for g.limits.ban_duration (r.offences + 1);
              reason = repeated_failures;
            })
            g.bans;
    }

unfoldable pub ban_end : ℕ → Option BanRecord → Option ℕ
ban_end now none = none
ban_end now (some b) = if ltb b.until now then none else some b.until

module _ (n : Netip) where
  open n use {
    Addr, Prefix, parse_addr, parse_prefix, masked, whole, unmap, contains, split_host_port,
  }

  unfoldable pub host_of : Text → Text
  host_of remote = Option.get_or (split_host_port remote) (trim_space remote)

  unfoldable pub parse_network : Text → Option Prefix
  parse_network entry =
      if any (λ c. c == b'/') entry
      then Option.map masked (parse_prefix entry)
      else Option.map whole (parse_addr entry)

  -- The loop of `New` over the allowed networks; the error carries the entry.
  unfoldable pub parse_networks : List Text → Result Text (List Prefix)
  parse_networks [] = ok []
  parse_networks (raw ∷ rest) =
      let entry = trim_space raw in
      let later = parse_networks rest in
      if is_empty entry
      then later
      else do p ← or_refuse (parse_network entry) entry; ps ← later; ok (p ∷ ps)

  unfoldable pub new_guard : Limits → ℕ → Result Text (Guard Prefix)
  new_guard limits now = do
    allowed ← parse_networks limits.allowed_networks
    ok (record {
      limits = limits;
      allowed = allowed;
      conns = [];
      failures = [];
      bans = [];
      last_sweep = now;
    })

  unfoldable pub in_any : Option Addr → List Prefix → Bool
  in_any none prefixes = false
  in_any (some addr) prefixes = any (λ p. contains p (unmap addr)) prefixes

  unfoldable pub is_allowed : List Prefix → Text → Bool
  is_allowed allowed ip = if is_empty allowed then true else in_any (parse_addr ip) allowed

  unfoldable pub allow_connection :
      Guard Prefix → ℕ → Text → ℕ → Guard Prefix × Result Rejection (Unit {0})
  allow_connection g now remote current_agents =
      let ip = host_of remote in
      let s = sweep g now in
      if is_allowed s.allowed ip
      then admit_listed s now ip current_agents (standing_ban now (lookup ip s.bans))
      else (s, err not_in_allowlist)

  unfoldable pub record_auth_failure : Guard Prefix → ℕ → Text → Guard Prefix
  record_auth_failure g now remote =
      let ip = host_of remote in
      if g.limits.auth_failures_before_ban == 0
      then g
      else count_failure g now ip (current_failures now (lookup ip g.failures))

  unfoldable pub record_auth_success : Guard Prefix → Text → Guard Prefix
  record_auth_success g remote = record g { failures = erase (host_of remote) g.failures }

  -- The time is the zero time where the address is not banned.
  unfoldable pub is_banned : Guard Prefix → ℕ → Text → Option ℕ
  is_banned g now remote = ban_end now (lookup (host_of remote) g.bans)

  unfoldable pub unban : Guard Prefix → Text → Guard Prefix
  unban g ip = record g { bans = erase ip g.bans; failures = erase ip g.failures }
