-- ===== src/Actions/Real/Commands.antt =====
-- Which commands the executor's methods run.
use lap_guard.Safety.{second}
use lap_guard.Base.{
  pos, ◌*◌, ◌≡◌, ◌⊎◌, inl, inr, refl, true, false, List, [], ◌∷◌, ◌++◌, Text, All, All-map, Result,
  ok, err, Bool-cases, ℤ, contains_any,
}
use lap_guard.Config.Normalize.{is_abs, shell_chars}
use lap_guard.Actions.Argv.{validate_argv, ps_args, stop_args, parse_container_ids}
use lap_guard.Actions.Argv.Shape.{Form, validate_argv-Form}
use lap_guard.Actions.Real.{
  default_timeout, Command, CommandError, Machine, RealExecutor, Outcome, Io, and_then, ◌>>◌,
  from_result, run_command, docker_bin, sync_bin, power_off_argv, stop_within, stop_one, stop_all,
  list_and_stop, stop_docker, sync_disks, power_off, drain_sync_power_off, wrap_outcome, discard,
  time_for,
}

-- Every command that an operation runs has the property, whatever ran before.
abbrev pub Runs : {A : Type 0} → (Command → Type 0) → Io A → Type 0
Runs P m = (h : List Command) → All P (m h).0

All-append {ℓ} :
    {A : Type ℓ} (P : A → Type 0) (xs ys : List A) → All P xs → All P ys → All P (xs ++ ys)
All-append P [] ys h k = k
All-append P (x ∷ xs) ys (p, h) k = (p, All-append P xs ys h k)

and_then-Runs :
    {A B : Type 0} (P : Command → Type 0) (h : List Command) (o : Outcome A) (f : A → Io B)
    → All P o.0
    → ((a : A) → o.1 ≡ ok a → Runs P (f a))
    → All P (and_then h o f).0
and_then-Runs P h (ran, err e) f r k = r
and_then-Runs P h (ran, ok a) f r k = All-append P ran (f a (h ++ ran)).0 r (k a refl (h ++ ran))

module _ (P : Command → Type 0) (m : Machine) where
  run_command-Runs :
      (timeout : ℤ) (name : Text) (args : List Text)
      → ((c : Command) → c.name ≡ name → c.args ≡ args → validate_argv name args ≡ true → P c)
      → Runs P (run_command m timeout name args)
  unfolding run_command
  run_command-Runs timeout name args k h = elim (Bool-cases (validate_argv name args)) [
    | inl e ↦ rw e (k _ refl refl e, tt)
    | inr e ↦ rw e tt
  ]

wrap_outcome-runs : {A : Type 0} (o : Outcome A) → (wrap_outcome o).0 ≡ o.0
wrap_outcome-runs (ran, r) = refl

discard-runs : (o : Outcome Text) → (discard o).0 ≡ o.0
discard-runs (ran, ok a) = refl
discard-runs (ran, err e) = refl

-- A command with the executable of the given result, and arguments that `docker` takes.
abbrev pub IsDocker : Machine → RealExecutor → Command → Type 0
IsDocker m e c =
    (docker_bin m e ≡ ok c.name)
    × (validate_argv c.name c.args ≡ true)
    × ((c.args ≡ ps_args) ⊎ ((id : Text) × (c.args ≡ stop_args id)))

abbrev pub IsSync : Machine → RealExecutor → Command → Type 0
IsSync m e c = (sync_bin m e ≡ ok c.name) × (validate_argv c.name c.args ≡ true) × (c.args ≡ [])

abbrev pub IsPowerOff : Machine → RealExecutor → Command → Type 0
IsPowerOff m e c = (power_off_argv m e ≡ ok (c.name, c.args)) × (validate_argv c.name c.args ≡ true)

abbrev docker_timeout : RealExecutor → ℤ
docker_timeout e = default_timeout (pos (30 * second)) e.docker_timeout

abbrev pub sync_timeout : RealExecutor → ℤ
sync_timeout e = default_timeout (pos (15 * second)) e.sync_timeout

abbrev pub off_timeout : RealExecutor → ℤ
off_timeout e = default_timeout (pos (30 * second)) e.power_off_timeout

module _ (m : Machine) (e : RealExecutor) where
  stop_within-Runs :
      (path id : Text) (r : Result CommandError ℤ)
      → docker_bin m e ≡ ok path
      → Runs (IsDocker m e) (stop_within m path id r)
  unfolding stop_within
  stop_within-Runs path id (err x) b h = tt
  stop_within-Runs path id (ok left) b h =
      rw (discard-runs, wrap_outcome-runs)
        (run_command-Runs (IsDocker m e) m left path (stop_args id)
          (λ c n a v. (rw n b, rw (n, a) v, inr (id, a))) h)

  stop_all-Runs :
      (timeout : ℤ) (path : Text) (ids : List Text)
      → docker_bin m e ≡ ok path
      → Runs (IsDocker m e) (stop_all m timeout path ids)
  unfolding stop_all stop_one
  stop_all-Runs timeout path [] b h = tt
  stop_all-Runs timeout path (id ∷ ids) b h =
      and_then-Runs (IsDocker m e) h (stop_one m timeout path id h)
        (λ _. stop_all m timeout path ids) (stop_within-Runs path id (time_for m timeout h) b h)
        (λ _ _. stop_all-Runs timeout path ids b)

  pub stop_docker-Runs : Runs (IsDocker m e) (stop_docker m e)
  unfolding stop_docker list_and_stop
  stop_docker-Runs h =
      and_then-Runs (IsDocker m e) h (from_result (docker_bin m e) h)
        (λ path. list_and_stop m (docker_timeout e) path) tt
        λ path b h'.
          and_then-Runs (IsDocker m e) h'
            (wrap_outcome (run_command m (docker_timeout e) path ps_args h'))
            (λ out. stop_all m (docker_timeout e) path (parse_container_ids out))
            (rw wrap_outcome-runs (
              run_command-Runs (IsDocker m e) m (docker_timeout e) path ps_args
                (λ c n a v. (rw n b, rw (n, a) v, inl a)) h'))
            (λ out _. stop_all-Runs (docker_timeout e) path (parse_container_ids out) b)

  pub sync_disks-Runs : Runs (IsSync m e) (sync_disks m e)
  unfolding sync_disks
  sync_disks-Runs h =
      and_then-Runs (IsSync m e) h (from_result (sync_bin m e) h)
        (λ path h'. discard (wrap_outcome (run_command m (sync_timeout e) path [] h'))) tt
        λ path b h'.
          rw (discard-runs, wrap_outcome-runs)
            (run_command-Runs (IsSync m e) m (sync_timeout e) path []
              (λ c n a v. (rw n b, rw (n, a) v, a)) h')

  pub power_off-Runs : Runs (IsPowerOff m e) (power_off m e)
  unfolding power_off
  power_off-Runs h =
      and_then-Runs (IsPowerOff m e) h (from_result (power_off_argv m e) h)
        (λ argv h'. discard (wrap_outcome (run_command m (off_timeout e) argv.0 argv.1 h'))) tt
        λ argv b h'.
          rw (discard-runs, wrap_outcome-runs)
            (run_command-Runs (IsPowerOff m e) m (off_timeout e) argv.0 argv.1
              (λ c n a v. (rw (n, a) b, rw (n, a) v)) h')

-- A command that `validateArgv` lets through, described on its own.
abbrev pub Passes : Command → Type 0
Passes c = (is_abs c.name ≡ true) × (contains_any c.name shell_chars ≡ false) × Form c.name c.args

module _ (m : Machine) (e : RealExecutor) where
  docker-Passes : Runs Passes (stop_docker m e)
  docker-Passes h =
      All-map (IsDocker m e) Passes (λ c i. validate_argv-Form c.name c.args i.1) _
        (stop_docker-Runs m e h)

  sync-Passes : Runs Passes (sync_disks m e)
  sync-Passes h =
      All-map (IsSync m e) Passes (λ c i. validate_argv-Form c.name c.args i.1) _
        (sync_disks-Runs m e h)

  off-Passes : Runs Passes (power_off m e)
  off-Passes h =
      All-map (IsPowerOff m e) Passes (λ c i. validate_argv-Form c.name c.args i.1) _
        (power_off-Runs m e h)

  -- Whatever the settings, the machine and what ran before: every command that the sequence runs
  -- names its executable by an absolute path without a character that a shell reads, and is one of
  -- `docker ps -q`, `docker stop` with a container's hexadecimal identifier, `sync`,
  -- `systemctl poweroff` and `poweroff`.
  pub drain-Passes : (h : List Command) → All Passes (drain_sync_power_off m e h).0
  unfolding drain_sync_power_off
  drain-Passes h =
      and_then-Runs Passes h (stop_docker m e h) (λ _. sync_disks m e >> power_off m e)
        (docker-Passes h)
        λ _ _ h'.
          and_then-Runs Passes h' (sync_disks m e h') (λ _. power_off m e) (sync-Passes h')
            (λ _ _. off-Passes)
