-- ===== src/Config/Normalize/Fixed.antt =====
-- What `normalize` has made is left as it is by another `normalize`.
use lap_guard.Base.{
  ◌≡◌, refl, ap, sym, ◌∙◌, ℤ, pos, Bool, [], Text, text_eq, trim_space, to_lower, trim_space_idem,
  clean_idem, ok, arith, Bool-cases, inl, inr,
}
use mathlib.Core.Path.{subst}
use lap_guard.Config.{
  NotificationsConfig, ShutdownConfig, DockerConfig, SafetyConfig, AutoDrainConfig, ActionsConfig,
  AuthConfig, provider_none, on_user_no_continue,
}
use lap_guard.Config.Normalize.{
  text_or_default, or_default, zero_default, clean_notifications, check_notifications,
  normalize_notifications, normalize_shutdown, normalize_docker, normalize_safety,
  normalize_auto_drain, normalize_auth, normalize_actions, clean_on_no, check_actions,
  clean_actions, check_auto_drain, clean_auto_drain,
}
use lap_guard.Config.Normalize.Services.{normalize_services_idem}

pub or_default_idem : (d v : ℤ) → or_default d (or_default d v) ≡ or_default d v
or_default_idem d v = ground arith

zero_default_idem : (d v : ℤ) → zero_default d (zero_default d v) ≡ zero_default d v
zero_default_idem d v = ground arith

text_or_default_self : (d : Text) → text_or_default d d ≡ d
text_or_default_self d = ground arith

-- `d` is a name that cleaning leaves alone, as the defaults are.
pub name_idem :
    (d v : Text)
    → to_lower (trim_space d) ≡ d
    → let once = text_or_default d (to_lower (trim_space v)) in
      text_or_default d (to_lower (trim_space once)) ≡ once
name_idem d v h = elim (Bool-cases (text_eq (to_lower (trim_space v)) [])) [
  | inl e ↦ rw (e, h) (text_or_default_self d)
  | inr e ↦ rw (e, clean_idem v, e) refl
]

clean_notifications_idem :
    (n : NotificationsConfig) → clean_notifications (clean_notifications n) ≡ clean_notifications n
unfolding clean_notifications to_lower trim_space
clean_notifications_idem n =
    rw
      (
        name_idem provider_none n.provider refl,
        trim_space_idem n.webhook_url,
        trim_space_idem n.chat_id,
      )
      refl

check_notifications-result :
    (valid_url : Text → Bool) (c : NotificationsConfig) {b : NotificationsConfig}
    → check_notifications valid_url c ≡ ok b
    → c ≡ b
unfolding check_notifications
check_notifications-result valid_url c h = ground arith

pub normalize_notifications_fixed :
    (valid_url : Text → Bool) (n : NotificationsConfig) {b : NotificationsConfig}
    → normalize_notifications valid_url n ≡ ok b
    → normalize_notifications valid_url b ≡ ok b
unfolding normalize_notifications
normalize_notifications_fixed valid_url n h =
    let e = check_notifications-result valid_url (clean_notifications n) h in
    subst (λ m. check_notifications valid_url (clean_notifications m) ≡ ok m) e
      (ap (check_notifications valid_url) (clean_notifications_idem n) ∙ h ∙ ap ok (sym e))

pub normalize_shutdown_fixed :
    (s : ShutdownConfig) {t : ShutdownConfig}
    → normalize_shutdown s ≡ ok t
    → normalize_shutdown t ≡ ok t
unfolding normalize_shutdown
normalize_shutdown_fixed s h = ground arith

pub normalize_docker_fixed :
    (s : DockerConfig) {t : DockerConfig} → normalize_docker s ≡ ok t → normalize_docker t ≡ ok t
unfolding normalize_docker
normalize_docker_fixed s h = ground arith

pub normalize_safety_fixed :
    (s : SafetyConfig) {t : SafetyConfig} → normalize_safety s ≡ ok t → normalize_safety t ≡ ok t
unfolding normalize_safety
normalize_safety_fixed s h = ground arith

pub normalize_auth_fixed : (a : AuthConfig) → normalize_auth (normalize_auth a) ≡ normalize_auth a
unfolding normalize_auth
normalize_auth_fixed a =
    rw
      (
        trim_space_idem a.token_hash,
        trim_space_idem a.created_at,
        trim_space_idem a.last_rotated_at,
      )
      refl

clean_actions_idem : (a : ActionsConfig) → clean_actions (clean_actions a) ≡ clean_actions a
clean_actions_idem a =
    rw
      (
        or_default_idem (pos 60) a.cooldown_seconds,
        or_default_idem (pos 30) a.poweroff_timeout_secs,
        trim_space_idem a.poweroff_path,
        trim_space_idem a.docker_path,
        trim_space_idem a.sync_path,
      )
      refl

check_actions-result : (c : ActionsConfig) {b : ActionsConfig} → check_actions c ≡ ok b → c ≡ b
unfolding check_actions
check_actions-result c h = ground arith

pub normalize_actions_fixed :
    (a : ActionsConfig) {b : ActionsConfig}
    → normalize_actions a ≡ ok b
    → normalize_actions b ≡ ok b
unfolding normalize_actions
normalize_actions_fixed a h =
    let e = check_actions-result (clean_actions a) h in
    subst (λ m. check_actions (clean_actions m) ≡ ok m) e
      (ap check_actions (clean_actions_idem a) ∙ h ∙ ap ok (sym e))

clean_on_no_idem : (raw : Text) → clean_on_no (clean_on_no raw) ≡ clean_on_no raw
unfolding clean_on_no to_lower trim_space
clean_on_no_idem raw = name_idem on_user_no_continue raw refl

check_auto_drain_clean :
    (a : AutoDrainConfig)
    → check_auto_drain a ≡ ok tt
    → check_auto_drain (clean_auto_drain a) ≡ ok tt
unfolding check_auto_drain
check_auto_drain_clean a h = rw (clean_on_no_idem a.on_user_no) ground arith

clean_auto_drain_idem :
    (a : AutoDrainConfig) → clean_auto_drain (clean_auto_drain a) ≡ clean_auto_drain a
clean_auto_drain_idem a =
    rw
      (
        zero_default_idem (pos 10) a.battery_threshold_percent,
        zero_default_idem (pos 30) a.pre_notification_minutes,
        zero_default_idem (pos 10) a.response_timeout_minutes,
        normalize_services_idem a.notification_services,
        clean_on_no_idem a.on_user_no,
      )
      refl

accept-auto_drain :
    (a : AutoDrainConfig)
    → check_auto_drain a ≡ ok tt
    → normalize_auto_drain a ≡ ok (clean_auto_drain a)
unfolding normalize_auto_drain
accept-auto_drain a h = rw h refl

normalize_auto_drain-result :
    (a : AutoDrainConfig) {b : AutoDrainConfig}
    → normalize_auto_drain a ≡ ok b
    → (check_auto_drain a ≡ ok tt) × (clean_auto_drain a ≡ b)
unfolding normalize_auto_drain
normalize_auto_drain-result a h = ground arith

pub normalize_auto_drain_fixed :
    (a : AutoDrainConfig) {b : AutoDrainConfig}
    → normalize_auto_drain a ≡ ok b
    → normalize_auto_drain b ≡ ok b
normalize_auto_drain_fixed a h =
    let (checked, e) = normalize_auto_drain-result a h in
    subst (λ m. normalize_auto_drain m ≡ ok m) e
      (accept-auto_drain (clean_auto_drain a) (check_auto_drain_clean a checked)
        ∙ ap ok (clean_auto_drain_idem a))
