-- ===== src/Hub/Admission/Refused.antt =====
-- What a refused connection is told.
use talkeqidea.Common.{ℕ, ◌+◌, ◌*◌, ◌/◌, ◌≤◌, ◌<◌, ◌≡◌, inl, inr, Bool-cases, some, arith, ltb}
use talkeqidea.Guard.Core.{Rejection, retry_of, second}
use talkeqidea.Hub.Admission.{retry_header, status_of}

-- A refusal that names a time to come back in is a 429, the time it names is after the refusal
-- has ended, and by at most a second.
retry_header_enough :
    (r : Rejection) (header : ℕ)
    → retry_header r ≡ some header
    → (status_of r ≡ 429) × (retry_of r < header * second) × (header * second ≤ retry_of r + second)
unfolding retry_header status_of
retry_header_enough r header h = elim (Bool-cases (ltb 0 (retry_of r))) [
  | inl waits ↦
      let same : retry_of r / second + 1 ≡ header = ground arith in
      (rw waits, omega arith, omega arith)
  | inr not_now ↦ absurd (cc (rw not_now at h))
]
