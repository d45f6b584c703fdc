-- ===== src/Notify/Retry.antt =====
-- Retries of internal/notify/retry.go, and the answers of a provider (deliver.go).
mod Laws
mod Examples
use lap_guard.Base.{
  negsuc, ◌%◌, ◌^◌, zero, ℕ, suc, ◌+◌, ◌*◌, ◌-◌, ltb, leb, ◌==◌, ℤ, pos, pos_part, ltb_ℤ, ◌+ℤ◌,
  Bool, true, false, ◌&&◌, ◌||◌, not, Option, none, some, List, [], ◌∷◌, if◌then◌else◌,
}

-- The errors of one attempt, as far as `retryable` tells them apart. `status` is a `statusError`.
pub data SendError : Type 0 where
  canceled deadline_exceeded network rejected unbuildable : SendError
  status : ℕ → SendError

unfoldable pub retryable_status : ℕ → Bool
retryable_status code = code == 429 || leb 500 code

unfoldable pub retryable : SendError → Bool
unfolding retryable_status
retryable canceled = false
retryable deadline_exceeded = true
retryable (status code) = retryable_status code
retryable network = true
retryable rejected = false
retryable unbuildable = false

-- What `deliver` makes of a provider's status code; `none` is success.
unfoldable pub status_outcome : ℕ → Option SendError
status_outcome code =
    if leb 200 code && ltb code 300
    then none
    else if retryable_status code
    then some (status code)
    else some rejected

-- The world of one call of `withRetry`: whether the context is over before attempt `i`, what attempt
-- `i` returns, and whether the context ends during the wait after it.
pub record World : Type 0 where
  pub context : ℕ → Option SendError
  pub attempt : ℕ → Option SendError
  pub wait : ℕ → Option SendError

-- The error returned, if any, how many attempts were made, and the waits between them.
pub record Outcome : Type 0 where
  pub error : Option SendError
  pub calls : ℕ
  pub waits : List ℤ

abbrev once_more : Outcome → Outcome
once_more o = record o { calls = suc o.calls }

abbrev waited : ℤ → Outcome → Outcome
waited delay o = record o { waits = delay ∷ o.waits }

abbrev stop : Option SendError → ℕ → Outcome
stop e calls = record { error = e; calls = calls; waits = [] }

-- After attempt `i` failed with `e`, not the last one: wait, and go on with `rest`.
abbrev wait_then : World → ℕ → ℤ → Outcome → Outcome → Outcome
wait_then w i delay doubled same =
    if ltb_ℤ (pos 0) delay
    then elim (w.wait i) [
      | some over ↦ waited delay (stop (some over) 1)
      | none ↦ waited delay (once_more doubled)
    ]
    else once_more same

abbrev after_attempt : Bool → Option SendError → Outcome → Outcome
after_attempt last none again = stop none 1
after_attempt last (some e) again = if not (retryable e) || last then stop (some e) 1 else again

abbrev unless_over : Option SendError → Outcome → Outcome
unless_over (some e) o = stop (some e) 0
unless_over none o = o

abbrev modulus : ℕ
modulus = 2 ^ 64

-- The bits of a Go `int64`, and what they stand for.
abbrev bits : ℤ → ℕ
bits (pos n) = n % modulus
bits (negsuc n) = modulus - 1 - n % modulus

abbrev from_bits : ℕ → ℤ
from_bits n = if ltb n (2 ^ 63) then pos n else negsuc (modulus - 1 - n)

-- `delay *= 2` of a `time.Duration`, which wraps around.
unfoldable twice : ℤ → ℤ
unfolding ◌+ℤ◌
twice delay = from_bits (bits (delay +ℤ delay))

-- The loop from attempt `i` on, with `left` more attempts after it.
unfoldable pub attempts_from : World → ℕ → ℕ → ℤ → Outcome
unfolding twice
attempts_from w zero i delay =
    unless_over (w.context i) (after_attempt true (w.attempt i) (stop none 0))
attempts_from w (suc left) i delay =
    let doubled = attempts_from w left (suc i) (twice delay) in
    let same = attempts_from w left (suc i) delay in
    unless_over (w.context i) (after_attempt false (w.attempt i) (wait_then w i delay doubled same))

-- `withRetry`; fewer than one attempt counts as one.
unfoldable pub with_retry : World → ℤ → ℤ → Outcome
with_retry w attempts backoff = attempts_from w (pos_part attempts - 1) 0 backoff
