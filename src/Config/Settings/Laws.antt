-- ===== src/Config/Settings/Laws.antt =====
-- What a change of the settings over HTTP keeps (updateSettings of internal/api/config.go and the
-- Apply methods of internal/config).
use lap_guard.Base.{
  trim_space_idem, ◌∙◌, none, some, sym, Option, ap, ◌≡◌, ◌⊎◌, inl, inr, refl, Bool, true, Text,
  trim_space, Result, ok, err, arith, reject_if, >>=-eq-ok,
}
use mathlib.Core.Path.{subst}
use lap_guard.Config.{Config, ActionsConfig}
use lap_guard.Config.Normalize.{Checked, ConfigError, paths_not_over_http, normalize}
use lap_guard.Config.Normalize.Bounds.{
  normalize-actions, IsValid, normalize-IsValid, normalize_actions-IsValid, normalize_actions-paths,
}
use lap_guard.Config.Settings.{
  apply_auto_drain, apply_safety, apply_docker, apply_shutdown, apply_notifications, apply_if,
  apply_request, put_config, SettingsRequest, Disk, ActionsPatch, UpdateError, update_settings,
  keep_on_error, lift, save, choose_path, attempt, apply_actions, has_path, patched_actions,
}

keep_on_error-cases :
    (old : Config) (r : Result UpdateError Config)
    → let s = keep_on_error old r in
      ((next : Config) × (s ≡ (next, ok next))) ⊎ ((e : UpdateError) × (s ≡ (old, err e)))
keep_on_error-cases old (ok next) = inl (next, refl)
keep_on_error-cases old (err e) = inr (e, refl)

keep_on_error-holds :
    (P : Config → Type 0) (old : Config) (r : Result UpdateError Config)
    → P old
    → ((next : Config) → r ≡ ok next → P next)
    → P (keep_on_error old r).0
keep_on_error-holds P old (ok next) kept new = new next refl
keep_on_error-holds P old (err e) kept new = kept

-- An update of the settings either fails and leaves the server's configuration as it was, or
-- returns the configuration that the server holds from then on.
pub update_settings_atomic :
    (valid_url : Text → Bool) (disk : Disk) (mutate : Config → Checked Config) (old : Config)
    → let s = update_settings valid_url disk mutate old in
      ((next : Config) × (s ≡ (next, ok next))) ⊎ ((e : UpdateError) × (s ≡ (old, err e)))
unfolding update_settings
update_settings_atomic valid_url disk mutate old =
    keep_on_error-cases old (attempt valid_url disk mutate old)

lift-eq-ok {ℓ} : {A : Type ℓ} (r : Result ConfigError A) {a : A} → lift r ≡ ok a → r ≡ ok a
lift-eq-ok (ok b) h = cc
lift-eq-ok (err e) h = cc

save-eq :
    (disk : Disk) (clean : Config) {next : Config}
    → save disk clean ≡ ok next
    → record clean { config_path = next.config_path } ≡ next
unfolding save choose_path
save-eq disk clean h = ground arith

save-IsValid :
    (disk : Disk) (clean : Config) {next : Config}
    → save disk clean ≡ ok next
    → IsValid clean
    → IsValid next
save-IsValid disk clean h v = subst IsValid (save-eq disk clean h) (record {
  shutdown = v.shutdown;
  docker = v.docker;
  safety = v.safety;
  auto_drain = v.auto_drain;
  actions = v.actions;
  poll = v.poll;
  debounce = v.debounce;
})

attempt-IsValid :
    (valid_url : Text → Bool) (disk : Disk) (mutate : Config → Checked Config) (old : Config)
    {next : Config}
    → attempt valid_url disk mutate old ≡ ok next
    → IsValid next
unfolding attempt
attempt-IsValid valid_url disk mutate old h =
    let (raw, _, h') = >>=-eq-ok (lift (mutate old)) _ h in
    let (clean, e, saved) = >>=-eq-ok (lift (normalize valid_url raw)) _ h' in
    save-IsValid disk clean saved
      (normalize-IsValid valid_url raw (lift-eq-ok (normalize valid_url raw) e))

-- Whatever the request changes, the server never comes to hold settings out of range.
pub update_settings-IsValid :
    (valid_url : Text → Bool) (disk : Disk) (mutate : Config → Checked Config) (old : Config)
    → IsValid old
    → IsValid (update_settings valid_url disk mutate old).0
unfolding update_settings
update_settings-IsValid valid_url disk mutate old v =
    keep_on_error-holds IsValid old (attempt valid_url disk mutate old) v
      λ next h. attempt-IsValid valid_url disk mutate old h

-- The paths of the executables are the same up to blanks at their ends.
abbrev SamePaths : ActionsConfig → ActionsConfig → Type 0
SamePaths a b =
    (trim_space b.poweroff_path ≡ trim_space a.poweroff_path)
    × (trim_space b.docker_path ≡ trim_space a.docker_path)
    × (trim_space b.sync_path ≡ trim_space a.sync_path)

-- The paths are those of `a` without blanks at their ends, and confirmation is required.
pub record Locked (a b : ActionsConfig) : Type 0 where
  pub power_off : b.poweroff_path ≡ trim_space a.poweroff_path
  pub docker : b.docker_path ≡ trim_space a.docker_path
  pub sync : b.sync_path ≡ trim_space a.sync_path
  pub confirmed : b.require_confirmation ≡ true

apply_actions-SamePaths :
    (a : ActionsConfig) (p : ActionsPatch) {b : ActionsConfig}
    → apply_actions a p ≡ ok b
    → SamePaths a b
unfolding apply_actions
apply_actions-SamePaths a p h =
    let (_, _, n) = >>=-eq-ok (reject_if (has_path p) paths_not_over_http) _ h in
    let (po, dk, sy) = normalize_actions-paths (patched_actions a p) n in
    (
      ap trim_space po ∙ trim_space_idem a.poweroff_path,
      ap trim_space dk ∙ trim_space_idem a.docker_path,
      ap trim_space sy ∙ trim_space_idem a.sync_path,
    )

apply_if-SamePaths :
    (a : ActionsConfig) (p : Option ActionsPatch) {b : ActionsConfig}
    → apply_if apply_actions a p ≡ ok b
    → SamePaths a b
apply_if-SamePaths a none h = ground arith
apply_if-SamePaths a (some p) h = apply_actions-SamePaths a p h

apply_request-SamePaths :
    (valid_url : Text → Bool) (req : SettingsRequest) (c : Config) {next : Config}
    → apply_request valid_url req c ≡ ok next
    → SamePaths c.actions next.actions
unfolding apply_request
apply_request-SamePaths valid_url req c h =
    let (_, _, h1) =
      >>=-eq-ok (apply_if (apply_notifications valid_url) c.notifications req.notifications) _ h in
    let (_, _, h2) = >>=-eq-ok (apply_if apply_shutdown c.shutdown req.shutdown) _ h1 in
    let (_, _, h3) = >>=-eq-ok (apply_if apply_docker c.docker req.docker) _ h2 in
    let (_, _, h4) = >>=-eq-ok (apply_if apply_safety c.safety req.safety) _ h3 in
    let (a, e, h5) = >>=-eq-ok (apply_if apply_actions c.actions req.actions) _ h4 in
    let (_, _, h6) = >>=-eq-ok (apply_if apply_auto_drain c.auto_drain req.auto_drain) _ h5 in
    let kept = apply_if-SamePaths c.actions req.actions e in ground arith

save-actions :
    (disk : Disk) (next : Config) {named : Config}
    → save disk next ≡ ok named
    → named.actions ≡ next.actions
unfolding save choose_path
save-actions disk next h = ground arith

normalize-Locked :
    (valid_url : Text → Bool) (c : Config) {d : Config} (a : ActionsConfig)
    → SamePaths a c.actions
    → normalize valid_url c ≡ ok d
    → Locked a d.actions
normalize-Locked valid_url c a (po, dk, sy) h =
    let n = normalize-actions valid_url c h in
    let (po', dk', sy') = normalize_actions-paths c.actions n in
    record {
      power_off = po' ∙ po;
      docker = dk' ∙ dk;
      sync = sy' ∙ sy;
      confirmed = (normalize_actions-IsValid c.actions n).confirmed;
    }

attempt-Locked :
    (valid_url : Text → Bool) (disk : Disk) (req : SettingsRequest) (old : Config) {next : Config}
    → attempt valid_url disk (apply_request valid_url req) old ≡ ok next
    → Locked old.actions next.actions
unfolding attempt
attempt-Locked valid_url disk req old h =
    let (raw, e, h') = >>=-eq-ok (lift (apply_request valid_url req old)) _ h in
    let (clean, n, saved) = >>=-eq-ok (lift (normalize valid_url raw)) _ h' in
    let same =
      apply_request-SamePaths valid_url req old (lift-eq-ok (apply_request valid_url req old) e) in
    subst (Locked old.actions) (sym (save-actions disk clean saved))
      (normalize-Locked valid_url raw old.actions same (lift-eq-ok (normalize valid_url raw) n))

-- Whatever PUT /api/v1/config asks for, the server's settings stay what they are, or the paths of
-- the executables are what they were without blanks at their ends, and confirmation is required.
pub put_config-Locked :
    (valid_url : Text → Bool) (disk : Disk) (req : SettingsRequest) (old : Config)
    → let now = (put_config valid_url disk req old).0 in
      (now ≡ old) ⊎ Locked old.actions now.actions
unfolding put_config update_settings
put_config-Locked valid_url disk req old =
    keep_on_error-holds (λ c. (c ≡ old) ⊎ Locked old.actions c.actions) old
      (attempt valid_url disk (apply_request valid_url req) old) (inl refl)
      λ next h. inr (attempt-Locked valid_url disk req old h)
