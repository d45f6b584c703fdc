-- ===== src/Api/Actions.antt =====
-- The manual actions of internal/api/actions.go: the gates, the status, and the two handlers that
-- stop Docker or power the machine off.
mod Laws
mod Examples
use lap_guard.Base.{
  negsuc, suc, ◌-◌, ℕ, ◌*◌, leb, ltb, ◌==◌, ℤ, pos, ltb_ℤ, leb_ℤ, ◌+ℤ◌, pos_part, Bool, true, false,
  ◌&&◌, ◌||◌, not, Option, none, some, List, [], ◌∷◌, ◌++◌, Text, codes, text_eq, trim_space,
  len_bytes, Result, ok, err, if◌then◌else◌,
}
use lap_guard.Config.{
  Config, Action, stop_docker, sync, power_off, Gate, manual_actions_ready, action_gates,
}
use lap_guard.Power.{Source, ac, battery, unknown, unset, source_eq}
use lap_guard.Safety.{second}
use lap_guard.Safety.Executor.{Executor, recorder, Effect, ExecError, perform_all, unavailable}
use lap_guard.Api.Guard.{Guard, GuardError, CooldownStatus, begin, finish, status}

pub data Manual : Type 0 where
  manual_power_off manual_stop_docker : Manual

abbrev pub want_confirm : Manual → Text
want_confirm manual_power_off = codes "POWER_OFF"
want_confirm manual_stop_docker = codes "STOP_DOCKER"

pub record BatteryReading : Type 0 where
  pub status : Text
  pub percent : Option ℤ
  pub discharging : Bool

pub data Refusal : Type 0 where
  real_disabled dry_run ac_connected ac_unknown not_discharging : Refusal

abbrev source_gate : Source → Bool → Option Refusal
source_gate ac discharging = some ac_connected
source_gate unknown discharging = some ac_unknown
source_gate unset discharging = some ac_unknown
source_gate battery discharging = if discharging then none else some not_discharging

-- `safetyGate`; `none` lets the action through.
unfoldable pub safety_gate : Config → Source → BatteryReading → Option Refusal
safety_gate cfg src bat =
    if not cfg.actions.real_enabled
    then some real_disabled
    else if cfg.safety.dry_run
    then some dry_run
    else source_gate src bat.discharging

pub data LiveGate : Type 0 where
  settings : Gate → LiveGate
  on_ac ac_state_unknown battery_not_discharging cooldown_gate action_in_progress : LiveGate

abbrev settings_gates : List Gate → List LiveGate
settings_gates [] = []
settings_gates (g ∷ rest) = settings g ∷ settings_gates rest

abbrev source_gates : Source → List LiveGate
source_gates ac = on_ac ∷ []
source_gates unknown = ac_state_unknown ∷ []
source_gates unset = ac_state_unknown ∷ []
source_gates battery = []

unfoldable pub live_action_gates : Config → Source → BatteryReading → CooldownStatus → List LiveGate
live_action_gates cfg src bat cool =
    settings_gates (action_gates cfg)
    ++ (source_gates src
        ++ ((if bat.discharging then [] else battery_not_discharging ∷ [])
            ++ ((if cool.active then cooldown_gate ∷ [] else [])
                ++ (if cool.in_progress then action_in_progress ∷ [] else []))))

abbrev is_nil : List LiveGate → Bool
is_nil [] = true
is_nil (g ∷ rest) = false

-- `time.Duration(cfg.Actions.CooldownSeconds) * time.Second`
unfoldable pub seconds : ℤ → ℤ
seconds (pos n) = pos (n * second)
seconds (negsuc n) = negsuc (suc n * second - 1)

-- The field `Ready` of `actionStatus`.
unfoldable pub ready : Config → Source → BatteryReading → ℕ → Guard → Bool
ready cfg src bat now g =
    let cool = status (seconds cfg.actions.cooldown_seconds) now g in
    is_nil (live_action_gates cfg src bat cool)
    && (manual_actions_ready cfg
        && (source_eq src battery
            && (bat.discharging && (not cool.active && not cool.in_progress))))

pub is_control : ℕ → Bool
is_control c = ltb c 32 || (leb 127 c && ltb c 160)

pub has_control : Text → Bool
unfolding is_control
has_control [] = false
has_control (c ∷ rest) = if is_control c then true else has_control rest

-- `idempotencyHash`; `hash` stands for the hexadecimal SHA-256 digest.
unfoldable pub idempotency_hash : (Text → Text) → Text → Option Text
unfolding has_control
idempotency_hash hash raw =
    let key = trim_space raw in
    if text_eq key []
    then some []
    else if ltb 128 (len_bytes key)
    then none
    else if has_control key
    then none
    else some (hash key)

-- What `manualExecutor` reads of the server: an executor of the tests, the recorder, and what the
-- machine answers to a real executor. `none` is nil.
pub record Actors : Type 0 where
  pub test_actor : Option Executor
  pub rec : Option Executor
  pub real : Executor

abbrev or_new_recorder : Option Executor → Executor
or_new_recorder none = recorder
or_new_recorder (some e) = e

abbrev without_test : Config → Actors → Executor
without_test cfg a = if manual_actions_ready cfg then a.real else or_new_recorder a.rec

unfoldable pub manual_executor : Config → Actors → Executor
manual_executor cfg a = elim a.test_actor [ none ↦ without_test cfg a | some e ↦ e ]

pub data ExecutorKind : Type 0 where
  recording real_kind : ExecutorKind

-- `executorKind`
unfoldable pub executor_kind : Config → Actors → ExecutorKind
executor_kind cfg a = elim a.test_actor [
  | none ↦ if manual_actions_ready cfg then real_kind else recording
  | some e ↦ recording
]

-- The time allowed to an action, in seconds: `manualTimeout`.
abbrev thirty_unless_positive : ℤ → ℤ
thirty_unless_positive n = if leb_ℤ n (pos 0) then pos 30 else n

unfoldable pub manual_timeout : Config → Manual → ℤ
manual_timeout cfg manual_stop_docker = thirty_unless_positive cfg.docker.timeout_seconds
manual_timeout cfg manual_power_off =
    let base = thirty_unless_positive cfg.actions.poweroff_timeout_secs +ℤ pos 15 in
    if cfg.docker.stop_enabled
    then base +ℤ thirty_unless_positive cfg.docker.timeout_seconds
    else base

-- The steps that the two handlers make an executor take.
unfoldable pub manual_steps : Manual → Config → List Action
manual_steps manual_power_off cfg =
    if cfg.docker.stop_enabled then stop_docker ∷ sync ∷ power_off ∷ [] else sync ∷ power_off ∷ []
manual_steps manual_stop_docker cfg = stop_docker ∷ []

-- A request: the text of `confirm`, `none` where the body is malformed, and the key's header.
pub record Request : Type 0 where
  pub confirm : Option Text
  pub key : Text

pub data Reply : Type 0 where
  malformed bad_confirm bad_key : Reply
  gated : Refusal → Reply
  busy : GuardError → Reply
  executor_failed done : Reply

unfoldable pub status_code : Reply → ℕ
status_code malformed = 400
status_code bad_confirm = 400
status_code bad_key = 400
status_code (gated r) = 409
status_code (busy e) = 409
status_code executor_failed = 503
status_code done = 200

abbrev admit_key : Config → Source → BatteryReading → ℕ → Text → Guard → Guard × Option Reply
admit_key cfg src bat now key g = elim (safety_gate cfg src bat) [
  | some r ↦ (g, some (gated r))
  | none ↦
      let (g', e) = begin (seconds cfg.actions.cooldown_seconds) now key g in
      (g', elim e [ none ↦ none | some e ↦ some (busy e) ])
]

abbrev admit_confirmed :
    (Text → Text) → Config → Source → BatteryReading → ℕ → Text → Guard → Guard × Option Reply
admit_confirmed hash cfg src bat now key g = elim (idempotency_hash hash key) [
  | none ↦ (g, some bad_key)
  | some k ↦ admit_key cfg src bat now k g
]

abbrev admit_decoded :
    (Text → Text)
    → Manual
    → Config
    → Source
    → BatteryReading
    → ℕ
    → Text
    → Option Text
    → Guard
    → Guard × Option Reply
admit_decoded hash m cfg src bat now key none g = (g, some malformed)
admit_decoded hash m cfg src bat now key (some c) g =
    if text_eq c (want_confirm m)
    then admit_confirmed hash cfg src bat now key g
    else (g, some bad_confirm)

-- `runManualAction` up to `guard.begin`; `none` goes on to run.
unfoldable pub admit :
    (Text → Text)
    → Manual
    → Config
    → Source
    → BatteryReading
    → ℕ
    → Request
    → Guard
    → Guard × Option Reply
admit hash m cfg src bat now r g = admit_decoded hash m cfg src bat now r.key r.confirm g

-- The rest of `runManualAction`. `cfg` is what the handler read at its start, `later` what
-- `manualExecutor` reads, and `now` the time at which `begin` was asked, which `end` gets as well.
unfoldable pub run_admitted :
    Manual → Config → Config → Actors → ℕ → Guard → Guard × Reply × List Effect
run_admitted m cfg later a now g =
    let (effects, problem) = perform_all (manual_executor later a) (manual_steps m cfg) in
    elim problem [
      | none ↦ (finish now true g, done, effects)
      | some e ↦ (finish now false g, executor_failed, effects)
    ]

-- A whole request that no other disturbs.
unfoldable pub run_manual_action :
    (Text → Text)
    → Manual
    → Config
    → Config
    → Source
    → BatteryReading
    → Actors
    → ℕ
    → Request
    → Guard
    → Guard × Reply × List Effect
run_manual_action hash m cfg later src bat a now r g =
    let (g', refused) = admit hash m cfg src bat now r g in
    elim refused [ none ↦ run_admitted m cfg later a now g' | some reply ↦ (g', reply, []) ]
