-- ===== src/Lib.antt =====
-- Models of LapGuard, a daemon that watches a laptop's battery and mains, notifies its owner, and
-- on request stops Docker and powers the machine off.
--
-- The parts and how they interact:
--   - Power models internal/power: Classify and Scan give the source of power; Power.Watcher is
--     `Watcher` with `evaluateLocked` and `Tick`, which turn scans into debounced transitions.
--   - Config models the records of internal/config with their defaults; Config.Normalize is
--     `normalize` of every group; Config.Settings is the patches with `Apply`, and
--     `updateSettings` and `handlePutConfig` of internal/api/config.go.
--   - Safety.Controller models internal/safety/controller.go: levels, latches and plans that are
--     never run. Its `tick` is `Tick`, and `simulate` is `Simulate`.
--   - Safety.AutoDrain models internal/safety/auto_drain.go. Handlers holds what each call does
--     under the mutex at a stretch; Calls joins the stretches of one undisturbed call (`tick`,
--     `respond`); Schedule lets calls interleave wherever the source gives up the mutex.
--   - Safety.Executor models the recorder, the host executor, and `drainSyncPowerOff`, which
--     internal/actions/sequence.go repeats.
--   - Config.Write models `atomicWriteFile` of internal/config/persist.go, Config.Persist `Save` and
--     `LoadFile`, and Config.Flags how `Load` joins the command line and the file, with
--     `ResolveThresholdMethod` in Flags.Method (all of internal/config/config.go).
--   - Config.Views models what the API and the log show: `APIView` and `Public`, the paths of
--     source.go, and in Views.Redact the log handler of redact.go.
--   - Config.Auth models internal/config/auth.go and `Verify` of internal/auth/token.go.
--   - Notify models internal/notify: Levels the monitor that announces a low battery, Limiter and
--     Retry the limiter and `withRetry`, and Service the method `Send` that joins them,
--     PowerEvents the messages about the mains.
--   - Api models internal/api: Guard is `actionGuard`, Actions the manual actions with their gates
--     and status, Protect the wrappers `secureWrite` and `secureAuthAdmin` of protect.go.
--   - Api.Server models the server of internal/api: its state, the handlers that can change it, and
--     in Server.Router the routes of handlers.go with the wrappers before them.
--   - Discovery models scanner.go, modules.go and tools.go of internal/discovery.
--   - Actions models internal/actions: Argv is `validateArgv` and `parseContainerIDs`, and Real is
--     `RealExecutor` with `StopDocker`, `Sync` and `PowerOff`, and `DrainSyncPowerOff` over it.
--   - Thresholds models internal/thresholds/controller.go: `Set` and `Get` over sysfs and tlp;
--     Thresholds.Detection is `detectThresholds` of internal/discovery/thresholds.go, which finds the
--     plan that the controller is made from.
--   - Battery models internal/battery: Compute the derived readings of compute.go, Label the text of
--     the runtime left, Reading the records and `enrich` of provider.go, and Sysfs the provider
--     over a directory, with Sysfs.Provider for `Snapshot` and Sysfs.Probing for `Probe`.
--   - Storage models internal/storage: Table is a table as its rows, Table.Retention what pruning
--     keeps of them, Events the power events of
--     sqlite.go, Audit the security log of audit.go with its sanitizers.
--   - Tailscale models internal/tailscale/allow.go, and Tailscale.Check the diagnostics of check.go
--     with the redaction of redact.go.
--   - Base holds integers, results, texts and tests that the other modules share.
--
-- Choices. A Go `int` is an integer without a bound, since the settings are range-checked far below
-- 2^31; a time is a natural number of nanoseconds with 0 for Go's zero time, and a difference of
-- times is an integer. A text is a list of character codes. The state of a component is a record
-- that its operations return; a nil pointer is `none`; an error is a value. Loops recur on the list
-- that they run over, or on the number of attempts left, so that no fuel is needed. The clock, the
-- disk, floating point, the parsers of URLs, media types, addresses and numbers, SHA-256, the
-- random source, the answers of notification providers and the machine's commands are parameters.
--
-- Not modelled: goroutines and tickers (polls come as lists, interleavings as steps), the sink of
-- the log, JSON itself, which rows the handlers write to the security log, the requests sent to
-- providers, Go's flag package and regular expressions, SQLite itself, compatibility
-- reports, the read-only views, the program's start and the web interface.
pub mod Base
pub mod Config
pub mod Power
pub mod Safety
pub mod Notify
pub mod Actions
pub mod Thresholds
pub mod Battery
pub mod Storage
pub mod Tailscale
pub mod Discovery
pub mod Api
