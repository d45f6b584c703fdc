-- ===== src/Notify/Retry/Examples.antt =====
-- A provider that answers 503 once and then 200.
use lap_guard.Base.{
  true, is_some, ◌⊎◌, ◌≤◌, ℕ, zero, suc, ◌<◌, ◌≡◌, refl, ℤ, pos, none, some, Option, arith,
}
use lap_guard.Notify.Retry.{
  SendError, status, World, with_retry, status_outcome, retryable, retryable_status,
}
use lap_guard.Notify.Retry.Laws.{with_retry_bounded, with_retry_reaches, FailsRetryably}

abbrev answers : ℕ → Option SendError
answers zero = some (status 503)
answers (suc i) = none

abbrev world : World
world = record { context = λ i. none; attempt = answers; wait = λ i. none }

abbrev backoff : ℤ
backoff = pos 200_000_000

answered_so : (status_outcome 503 ≡ answers 0) × (status_outcome 200 ≡ answers 1)
unfolding status_outcome retryable_status
answered_so = (refl, refl)

first_fails : (j : ℕ) → j < 1 → FailsRetryably world j
unfolding retryable retryable_status
first_fails zero h = (status 503, refl, refl)
first_fails (suc j) h = absurd (omega (arith, h))

with_retry_reaches_example :
    let o = with_retry world (pos 3) backoff in (o.error ≡ none) × (o.calls ≡ 2)
with_retry_reaches_example =
    with_retry_reaches world (pos 3) backoff 1 (λ j. refl) (λ j. refl) (omega arith) refl
      first_fails

with_retry_bounded_example :
    let o = with_retry world (pos 3) backoff in
    (o.calls ≤ 3 ⊎ (o.calls ≤ 1))
    × ((is_some o.error ≡ true) ⊎ ((k : ℕ) × (world.attempt k ≡ none) × (o.calls ≡ suc k)))
with_retry_bounded_example = with_retry_bounded world (pos 3) backoff
