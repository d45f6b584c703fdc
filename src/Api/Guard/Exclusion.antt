-- ===== src/Api/Guard/Exclusion.antt =====
-- The guard under requests that interleave: each begins once, and ends later if it was let in.
use lap_guard.Base.{
  ℕ, suc, ◌+◌, ◌-◌, ◌≤◌, ◌≡◌, ◌≢◌, ◌↔◌, ℤ, pos, pos_part, ◌<ℤ◌, Bool, false, Option, none, some,
  Text, arith, if◌then◌else◌,
}
use lap_guard.Api.Guard.{Guard, new_guard, GuardError, begin, finish, status, in_cooldown}

-- `running` counts the actions that have begun and not ended; `completed` is the time of the last
-- one that ran, and 0 before any.
pub record World : Type 0 where
  pub guard : Guard
  pub running : ℕ
  pub completed : ℕ

abbrev pub count_begin : Option GuardError → ℕ → ℕ
count_begin none n = suc n
count_begin (some e) n = n

abbrev pub begun : ℤ → ℕ → Text → World → World
begun cooldown now key w =
    let r = begin cooldown now key w.guard in
    record w { guard = r.0; running = count_begin r.1 w.running }

abbrev pub ended : ℕ → Bool → World → World
ended now ran w = record w {
  guard = finish now ran w.guard;
  running = w.running - 1;
  completed = if ran then now else w.completed;
}

-- The worlds that any requests lead to; an action ends only where one is running.
pub data Reach : World → Type 0 where
  start : Reach (record { guard = new_guard; running = 0; completed = 0 })
  request :
      {w : World} (cooldown : ℤ) (now : ℕ) (key : Text) → Reach w → Reach (begun cooldown now key w)
  complete : {w : World} (now : ℕ) (ran : Bool) → 1 ≤ w.running → Reach w → Reach (ended now ran w)

record Inv (w : World) : Type 0 where
  counted : w.running ≡ (if w.guard.inflight then 1 else 0)
  remembered : w.guard.last ≡ w.completed

begun-Inv :
    (cooldown : ℤ) (now : ℕ) (key : Text) {w : World} → Inv w → Inv (begun cooldown now key w)
unfolding begin
begun-Inv cooldown now key i = ground arith

ended-Inv : (now : ℕ) (ran : Bool) {w : World} → Inv w → 1 ≤ w.running → Inv (ended now ran w)
unfolding finish
ended-Inv now ran i h = ground arith

Reach-Inv : {w : World} → Reach w → Inv w
Reach-Inv start = ground arith
Reach-Inv (request cooldown now key r) = begun-Inv cooldown now key (Reach-Inv r)
Reach-Inv (complete now ran h r) = ended-Inv now ran (Reach-Inv r) h

-- However requests interleave, at most one manual action is running at a time.
pub one_at_a_time : {w : World} → Reach w → w.running ≤ 1
one_at_a_time r = let i = Reach-Inv r in ground arith

-- However requests interleave, the guard lets a request in exactly where no action is running and,
-- with a cooldown above zero and an action that ran at a time other than zero, that time lies at
-- least the cooldown back.
pub begin_lem :
    {w : World}
    → Reach w
    → (cooldown : ℤ) (now : ℕ) (key : Text)
    → ((begin cooldown now key w.guard).1 ≡ none) ↔ (
        (w.running ≡ 0)
        × (pos 0 <ℤ cooldown → w.completed ≢ 0 → w.completed + pos_part cooldown ≤ now))
unfolding begin in_cooldown
begin_lem r cooldown now key = let i = Reach-Inv r in (λ e. ground arith, λ h. ground arith)

-- The status of a guard tells what `begin` does at the same moment: it lets a request in exactly
-- where the status shows neither a cooldown nor an action in progress.
pub status_lem :
    (cooldown : ℤ) (now : ℕ) (key : Text) (g : Guard)
    → ((begin cooldown now key g).1 ≡ none)
      ↔ (((status cooldown now g).active ≡ false) × ((status cooldown now g).in_progress ≡ false))
unfolding begin status
status_lem cooldown now key g = (λ e. ground arith, λ h. ground arith)
