-- ===== src/Config/Normalize/Idempotence.antt =====
-- `normalize` of internal/config run on what it has made.
use lap_guard.Base.{
  text_eq, len_bytes, true, refl, ◌≡◌, refl, ap, sym, ◌∙◌, pos, Bool, true, Text, codes, trim_space,
  to_lower, mem_text, ok, arith,
}
use mathlib.Core.Path.{subst}
use lap_guard.Config.{defaults, Config}
use lap_guard.Config.Normalize.{
  clean_notifications, clean_on_no, drain_providers, known_providers, normalize_services,
  check_notifications, check_auto_drain, check_actions, known_providers, drain_providers,
  normalize_services, check_actions, check_auto_drain, check_notifications, text_or_default,
  or_default, known_kinds, known_methods, normalize_notifications, normalize_shutdown,
  normalize_docker, normalize_safety, normalize_auto_drain, normalize_auth, normalize_actions,
  normalize,
}
use lap_guard.Config.Normalize.Fixed.{
  name_idem, or_default_idem, normalize_notifications_fixed, normalize_shutdown_fixed,
  normalize_docker_fixed, normalize_safety_fixed, normalize_auth_fixed, normalize_actions_fixed,
  normalize_auto_drain_fixed,
}

abbrev pub auto_name : Text → Text
auto_name raw = text_or_default (codes "auto") (to_lower (trim_space raw))

auto_name_idem : (raw : Text) → auto_name (auto_name raw) ≡ auto_name raw
unfolding to_lower trim_space
auto_name_idem raw = name_idem (codes "auto") raw refl

-- `normalize` of each part of `c` succeeds and gives the part of `d`.
pub record Turns (valid_url : Text → Bool) (c d : Config) : Type 0 where
  pub kind : auto_name c.provider ≡ d.provider
  pub known_kind : mem_text (auto_name c.provider) known_kinds ≡ true
  pub method : auto_name c.threshold_method ≡ d.threshold_method
  pub known_method : mem_text (auto_name c.threshold_method) known_methods ≡ true
  pub notifications : normalize_notifications valid_url c.notifications ≡ ok d.notifications
  pub shutdown : normalize_shutdown c.shutdown ≡ ok d.shutdown
  pub docker : normalize_docker c.docker ≡ ok d.docker
  pub safety : normalize_safety c.safety ≡ ok d.safety
  pub auto_drain : normalize_auto_drain c.auto_drain ≡ ok d.auto_drain
  pub auth : normalize_auth c.auth ≡ d.auth
  pub actions : normalize_actions c.actions ≡ ok d.actions
  pub poll : or_default (pos 5_000_000_000) c.power_poll ≡ d.power_poll
  pub debounce : or_default (pos 10_000_000_000) c.power_debounce ≡ d.power_debounce

pub normalize-Turns :
    (valid_url : Text → Bool) (c : Config) {d : Config}
    → normalize valid_url c ≡ ok d
    → Turns valid_url c d
unfolding normalize
normalize-Turns valid_url c h = ground arith

pub fixed-normalize :
    (valid_url : Text → Bool) (c : Config) → Turns valid_url c c → normalize valid_url c ≡ ok c
unfolding normalize
fixed-normalize valid_url c t =
    rw
      (
        t.known_kind, t.known_method, t.notifications, t.shutdown, t.docker, t.safety, t.auto_drain,
        t.actions, t.kind, t.method, t.auth, t.poll, t.debounce,
      )
      refl

again {ℓ} : {A : Type ℓ} (f : A → A) (x : A) {y : A} → f (f x) ≡ f x → f x ≡ y → f y ≡ y
again f x twice once = subst (λ z. f z ≡ z) once twice

pub Turns-again :
    (valid_url : Text → Bool) (c d : Config) → Turns valid_url c d → Turns valid_url d d
Turns-again valid_url c d t =
    let kind = again auto_name c.provider (auto_name_idem c.provider) t.kind in
    let method = again auto_name c.threshold_method (auto_name_idem c.threshold_method) t.method in
    record {
      kind = kind;
      known_kind = ap (λ k. mem_text k known_kinds) (kind ∙ sym t.kind) ∙ t.known_kind;
      method = method;
      known_method = ap (λ k. mem_text k known_methods) (method ∙ sym t.method) ∙ t.known_method;
      notifications = normalize_notifications_fixed valid_url c.notifications t.notifications;
      shutdown = normalize_shutdown_fixed c.shutdown t.shutdown;
      docker = normalize_docker_fixed c.docker t.docker;
      safety = normalize_safety_fixed c.safety t.safety;
      auto_drain = normalize_auto_drain_fixed c.auto_drain t.auto_drain;
      auth = again normalize_auth c.auth (normalize_auth_fixed c.auth) t.auth;
      actions = normalize_actions_fixed c.actions t.actions;
      poll =
          again (or_default (pos 5_000_000_000)) c.power_poll
            (or_default_idem (pos 5_000_000_000) c.power_poll) t.poll;
      debounce =
          again (or_default (pos 10_000_000_000)) c.power_debounce
            (or_default_idem (pos 10_000_000_000) c.power_debounce) t.debounce;
    }

-- Settings that `normalize` has made are left exactly as they are by another `normalize`, which
-- accepts them.
pub normalize_idem :
    (valid_url : Text → Bool) (c : Config) {d : Config}
    → normalize valid_url c ≡ ok d
    → normalize valid_url d ≡ ok d
normalize_idem valid_url c h =
    fixed-normalize valid_url _ (Turns-again valid_url c _ (normalize-Turns valid_url c h))

-- The defaults are in range.
pub defaults_accepted : normalize (λ _. true) defaults ≡ ok defaults
unfolding normalize normalize_notifications check_notifications check_auto_drain check_actions
    normalize_shutdown normalize_docker normalize_safety normalize_auto_drain normalize_actions
    normalize_services mem_text drain_providers known_providers to_lower trim_space text_eq
    clean_on_no len_bytes clean_notifications
defaults_accepted = refl
