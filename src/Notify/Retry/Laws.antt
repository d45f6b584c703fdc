-- ===== src/Notify/Retry/Laws.antt =====
-- How often a send is tried, and what the last word is.
use lap_guard.Base.{
  refl, Option, is_some, sym, ap, ◌∙◌, zero, ℕ, suc, ◌+◌, ◌-◌, ◌≤◌, ◌<◌, ◌≡◌, ◌≢◌, ◌⊎◌, inl, inr, ℤ,
  pos_part, true, none, some, arith,
}
use lap_guard.Notify.Retry.{twice, SendError, retryable, World, attempts_from, with_retry}

leb-cases : (a b : ℕ) → (a ≤ b) ⊎ (b < a)
leb-cases a b = ground arith

attempts_from-calls :
    (w : World) (left i : ℕ) (delay : ℤ) → (attempts_from w left i delay).calls ≤ suc left
unfolding attempts_from
attempts_from-calls w zero i delay = ground arith
attempts_from-calls w (suc left) i delay = ground (
  arith,
  attempts_from-calls w left (suc i) (twice delay),
  attempts_from-calls w left (suc i) delay,
)

-- An attempt that is not the last ends the loop, or leaves the rest to the attempts after it.
attempts_from-step :
    (w : World) (left i : ℕ) (delay : ℤ)
    → let o = attempts_from w (suc left) i delay in
      let d = attempts_from w left (suc i) (twice delay) in
      let s = attempts_from w left (suc i) delay in
      (o.error ≢ none)
      ⊎ ((o.calls ≡ 1) × (w.attempt i ≡ none))
      ⊎ ((o.error ≡ d.error) × (o.calls ≡ suc d.calls))
      ⊎ ((o.error ≡ s.error) × (o.calls ≡ suc s.calls))
unfolding attempts_from
attempts_from-step w left i delay = ground arith

attempts_from-good :
    (w : World) (left i : ℕ) (delay : ℤ)
    → (attempts_from w left i delay).error ≡ none
    → (k : ℕ) × (w.attempt k ≡ none) × ((attempts_from w left i delay).calls + i ≡ suc k)
unfolding attempts_from
attempts_from-good w zero i delay h = (i, ground arith, ground arith)
attempts_from-good w (suc left) i delay h = elim (attempts_from-step w left i delay) [
  | inl bad ↦ absurd (bad h)
  | inr (inl (one, good)) ↦ (i, good, omega (arith, one))
  | inr (inr (inl (e, c))) ↦
      (let (k, good, n) = attempts_from-good w left (suc i) (twice delay) (sym e ∙ h) in
        (k, good, omega (arith, n, c)))
  | inr (inr (inr (e, c))) ↦
      (let (k, good, n) = attempts_from-good w left (suc i) delay (sym e ∙ h) in
        (k, good, omega (arith, n, c)))
]

-- Attempt `j` failed in a way that is worth another try.
abbrev pub FailsRetryably : World → ℕ → Type 0
FailsRetryably w j = (e : SendError) × (w.attempt j ≡ some e) × (retryable e ≡ true)

attempts_from-last :
    (w : World) (left i : ℕ) (delay : ℤ)
    → w.context i ≡ none
    → w.attempt i ≡ none
    → let o = attempts_from w left i delay in (o.error ≡ none) × (o.calls ≡ 1)
unfolding attempts_from
attempts_from-last w zero i delay c good = ground arith
attempts_from-last w (suc left) i delay c good = ground arith

attempts_from-again :
    (w : World) (left i : ℕ) (delay : ℤ)
    → w.context i ≡ none
    → w.wait i ≡ none
    → FailsRetryably w i
    → let o = attempts_from w (suc left) i delay in
      let d = attempts_from w left (suc i) (twice delay) in
      let s = attempts_from w left (suc i) delay in
      ((o.error ≡ d.error) × (o.calls ≡ suc d.calls))
      ⊎ ((o.error ≡ s.error) × (o.calls ≡ suc s.calls))
unfolding attempts_from
attempts_from-again w left i delay c t (e, at, r) = ground arith

attempts_from-reaches :
    (w : World) (left i : ℕ) (delay : ℤ) (n : ℕ)
    → ((j : ℕ) → w.context j ≡ none)
    → ((j : ℕ) → w.wait j ≡ none)
    → i ≤ n
    → n ≤ i + left
    → w.attempt n ≡ none
    → ((j : ℕ) → j < n → FailsRetryably w j)
    → let o = attempts_from w left i delay in (o.error ≡ none) × (o.calls + i ≡ suc n)
attempts_from-reaches w zero i delay n c t lo hi good fails =
    let here : i ≡ n = omega (arith, lo, hi) in
    let (e, k) = attempts_from-last w zero i delay (c i) (ap w.attempt here ∙ good) in
    (e, omega (arith, k, here))
attempts_from-reaches w (suc left) i delay n c t lo hi good fails = elim (leb-cases n i) [
  | inl at ↦
      (let here : i ≡ n = omega (arith, lo, at) in
        let (e, k) = attempts_from-last w (suc left) i delay (c i) (ap w.attempt here ∙ good) in
        (e, omega (arith, k, here)))
  | inr below ↦ elim (attempts_from-again w left i delay (c i) (t i) (fails i below)) [
    | inl (e, k) ↦
        (let (e', k') =
            attempts_from-reaches w left (suc i) (twice delay) n c t (omega (arith, below))
              (omega (arith, hi)) good fails in
          (e ∙ e', omega (arith, k, k')))
    | inr (e, k) ↦
        (let (e', k') =
            attempts_from-reaches w left (suc i) delay n c t (omega (arith, below))
              (omega (arith, hi)) good fails in
          (e ∙ e', omega (arith, k, k')))
  ]
]

or_error : {P : Type 0} (e : Option SendError) → (e ≡ none → P) → (is_some e ≡ true) ⊎ P
or_error none f = inr (f refl)
or_error (some e) f = inl refl

-- However the attempts, the waits and the context go: the loop ends after at most the attempts
-- that are allowed, one being allowed at least; and either an error comes back or the last attempt
-- that was made succeeded.
pub with_retry_bounded :
    (w : World) (attempts backoff : ℤ)
    → let o = with_retry w attempts backoff in
      (o.calls ≤ pos_part attempts ⊎ (o.calls ≤ 1))
      × ((is_some o.error ≡ true) ⊎ ((k : ℕ) × (w.attempt k ≡ none) × (o.calls ≡ suc k)))
unfolding with_retry
with_retry_bounded w attempts backoff =
    let c = attempts_from-calls w (pos_part attempts - 1) 0 backoff in
    (
      ground arith,
      or_error _ λ h.
          let (k, good, n) = attempts_from-good w (pos_part attempts - 1) 0 backoff h in
          (k, good, omega (arith, n)),
    )

-- While the context lasts, an attempt within the number allowed that succeeds, after failures that
-- are all worth another try, is reached, and nothing is tried after it.
pub with_retry_reaches :
    (w : World) (attempts backoff : ℤ) (n : ℕ)
    → ((j : ℕ) → w.context j ≡ none)
    → ((j : ℕ) → w.wait j ≡ none)
    → n < pos_part attempts
    → w.attempt n ≡ none
    → ((j : ℕ) → j < n → FailsRetryably w j)
    → let o = with_retry w attempts backoff in (o.error ≡ none) × (o.calls ≡ suc n)
unfolding with_retry
with_retry_reaches w attempts backoff n c t lt good fails =
    let (e, k) =
      attempts_from-reaches w (pos_part attempts - 1) 0 backoff n c t (omega arith)
        (omega (arith, lt)) good fails in
    (e, omega (arith, k))
