-- ===== src/Guard/Core/Bans.antt =====
-- How long bans are, and what they keep out.

use native.Mathlib.Nat.{pow-suc}
use talkeqidea.Common.{
  ℕ, zero, suc, ◌+◌, ◌-◌, ◌*◌, ◌^◌, ◌≤◌, ◌<◌, ◌≡◌, ◌⊎◌, inl, inr, refl, ap, ◌∙◌, List, [], ◌∷◌,
  none, some, arith, Text, Bool-cases, ltb, ◌==◌, if◌then◌else◌, lookup, All, length,
  lookup-insert_self, lookup-retain, err,
}
use talkeqidea.Guard.Core.{
  Netip, Limits, FailureRecord, BanRecord, Guard, not_in_allowlist, blocked, max_ban, minute,
  failure_window, repeated_failures, sweep, ban_stands, admit_listed, standing_ban,
  current_failures, double_ban, ban_for, count_failure, host_of, allow_connection,
  record_auth_failure, is_allowed,
}

abbrev capped : ℕ → ℕ
capped duration = if ltb max_ban duration then max_ban else duration

pow-pos : (k : ℕ) → 0 < 2 ^ k
pow-pos zero = omega arith
pow-pos (suc k) = rw (pow-suc 2 k) (omega (arith, pow-pos k))

capped_large :
    (duration factor : ℕ) → 0 < factor → max_ban ≤ duration → capped (duration * factor) ≡ max_ban
capped_large duration factor p h = grind arith

capped-double_ban :
    (rounds duration : ℕ) → capped (double_ban rounds duration) ≡ capped (duration * 2 ^ rounds)
unfolding double_ban
capped-double_ban zero duration =
    ap (λ (d : ℕ). capped d) (let e : duration ≡ duration * 1 = omega arith in e)
capped-double_ban (suc rounds) duration = elim (Bool-cases (ltb duration max_ban)) [
  | inl short ↦ rw short (
      capped-double_ban rounds (duration * 2)
      ∙ ap (λ (d : ℕ). capped d)
          (let e : duration * 2 * 2 ^ rounds ≡ duration * 2 ^ suc rounds =
              rw (pow-suc 2 rounds) (omega arith) in
            e))
  | inr long ↦
      rw long (
        ground
          (arith, capped_large duration (2 ^ suc rounds) (pow-pos (suc rounds)) (ground arith)))
]

-- The first ban of an address: what is configured, or 15 minutes.
abbrev pub first_ban : ℕ → ℕ
first_ban base = if base == 0 then 15 * minute else base

-- The ban for a further offence is the first ban doubled for each offence before it, up to a day.
pub ban_for_lem :
    (base earlier : ℕ) → ban_for base (suc earlier) ≡ capped (first_ban base * 2 ^ earlier)
unfolding ban_for
ban_for_lem base earlier =
    ap (λ (k : ℕ). capped (double_ban k (first_ban base)))
      (let e : suc earlier - 1 ≡ earlier = omega arith in e)
    ∙ capped-double_ban earlier (first_ban base)

standing_ban-some : (now : ℕ) (b : BanRecord) → now < b.until → standing_ban now (some b) ≡ some b
unfolding standing_ban
standing_ban-some now b h = ground arith

lookup-sweep :
    {P : Type 0} (g : Guard P) (now : ℕ) (ip : Text) (b : BanRecord)
    → lookup ip g.bans ≡ some b
    → now < b.until
    → lookup ip (sweep g now).bans ≡ some b
unfolding sweep
lookup-sweep g now ip b h k =
    ground (arith, lookup-retain (ban_stands now) ip b g.bans h (ground arith))

abbrev pub last_of : ℕ → List ℕ → ℕ
last_of t [] = t
last_of t (u ∷ times) = last_of u times

-- The ban that an offence earns at some time.
abbrev pub ban_from : Limits → ℕ → ℕ → BanRecord
ban_from limits now offences = record {
  until = now + ban_for limits.ban_duration offences;
  reason = repeated_failures;
}

module _ (n : Netip) where
  open n use {Prefix}

  -- An address whose ban runs longer than now is refused, sweep or not, and its ban stays.
  pub banned_refused :
      (g : Guard Prefix) (now : ℕ) (remote : Text) (current_agents : ℕ) (b : BanRecord)
      → lookup (host_of n remote) g.bans ≡ some b
      → now < b.until
      → (((allow_connection n g now remote current_agents).1 ≡ err not_in_allowlist)
          ⊎ ((allow_connection n g now remote current_agents).1
              ≡ err (blocked b.reason (b.until - now))))
        × (lookup (host_of n remote) (allow_connection n g now remote current_agents).0.bans
            ≡ some b)
  unfolding allow_connection admit_listed
  banned_refused g now remote current_agents b h k =
      let s : lookup (host_of n remote) (sweep g now).bans ≡ some b =
        lookup-sweep g now (host_of n remote) b h k in
      elim (Bool-cases (is_allowed n (sweep g now).allowed (host_of n remote))) [
        | inl listed ↦ rw (listed, s, standing_ban-some now b k, admit_listed) (inr refl, s)
        | inr not_listed ↦ rw not_listed (inl refl, s)
      ]

  -- Failed attempts of one address, at some times.
  unfoldable pub fail_all : Guard Prefix → Text → List ℕ → Guard Prefix
  fail_all g remote [] = g
  fail_all g remote (t ∷ times) = fail_all (record_auth_failure n g t remote) remote times

  current_failures-some :
      (t first : ℕ) (r : FailureRecord)
      → r.first_at ≡ first
      → t - first ≤ failure_window
      → current_failures t (some r) ≡ r
  unfolding current_failures
  current_failures-some t first r e h = ground arith

  -- One more failure, short of the limit.
  fail_short :
      (g : Guard Prefix) (t : ℕ) (remote : Text) (r : FailureRecord)
      → current_failures t (lookup (host_of n remote) g.failures) ≡ r
      → r.count + 1 < g.limits.auth_failures_before_ban
      → let g' = record_auth_failure n g t remote in
        (lookup (host_of n remote) g'.failures ≡ some (record r { count = r.count + 1 }))
        × (g'.limits ≡ g.limits)
  unfolding record_auth_failure count_failure
  fail_short g t remote r e h = rw e (
      ground (
        arith,
        lookup-insert_self (host_of n remote) (record r { count = r.count + 1 }) g.failures,
      ))

  -- The failure that reaches the limit.
  fail_last :
      (g : Guard Prefix) (t : ℕ) (remote : Text) (r : FailureRecord)
      → current_failures t (lookup (host_of n remote) g.failures) ≡ r
      → 0 < g.limits.auth_failures_before_ban
      → g.limits.auth_failures_before_ban ≤ r.count + 1
      → lookup (host_of n remote) (record_auth_failure n g t remote).bans
        ≡ some (ban_from g.limits t (r.offences + 1))
  unfolding record_auth_failure count_failure
  fail_last g t remote r e h k = rw e (
      ground (
        arith,
        lookup-insert_self (host_of n remote) (ban_from g.limits t (r.offences + 1)) g.bans,
      ))

  fail_all_banned :
      (g : Guard Prefix) (remote : Text) (first t : ℕ) (rest : List ℕ) (r : FailureRecord)
      → current_failures t (lookup (host_of n remote) g.failures) ≡ r
      → r.first_at ≡ first
      → All (λ u. u - first ≤ failure_window) rest
      → r.count + length (t ∷ rest) ≡ g.limits.auth_failures_before_ban
      → lookup (host_of n remote) (fail_all g remote (t ∷ rest)).bans
        ≡ some (ban_from g.limits (last_of t rest) (r.offences + 1))
  unfolding fail_all
  fail_all_banned g remote first t [] r e f a c =
      fail_last g t remote r e (omega arith) (omega arith)
  fail_all_banned g remote first t (u ∷ rest) r e f (a, within) c =
      let (counted, same) = fail_short g t remote r e (omega arith) in
      fail_all_banned (record_auth_failure n g t remote) remote first u rest
        (record r { count = r.count + 1 })
        (rw counted (current_failures-some u first (record r { count = r.count + 1 }) f a)) f within
        (rw same (omega arith))
      ∙ ap (λ (l : Limits). some (ban_from l (last_of u rest) (r.offences + 1))) same

  -- An address with no failures on record that fails as often as the limit says, all within ten
  -- minutes of the first time, is banned from the last failure on for the first ban's length.
  pub brute_force_banned :
      (g : Guard Prefix) (remote : Text) (first : ℕ) (rest : List ℕ)
      → lookup (host_of n remote) g.failures ≡ none
      → All (λ u. u - first ≤ failure_window) rest
      → length (first ∷ rest) ≡ g.limits.auth_failures_before_ban
      → lookup (host_of n remote) (fail_all g remote (first ∷ rest)).bans
        ≡ some (ban_from g.limits (last_of first rest) 1)
  unfolding current_failures
  brute_force_banned g remote first rest h a c =
      fail_all_banned g remote first first rest
        (record { count = 0; first_at = first; offences = 0 }) (rw (h, current_failures)) refl a
        (omega arith)
