-- ===== src/Config/Views/Examples.antt =====
-- Views and log records at concrete settings.
use lap_guard.Base.{
  has_prefix, contains, text_eq, trim_space, to_lower, if◌then◌else◌, Text, Bool, Bool-cases, inl,
  inr, false, ◌≡◌, refl, true, some, [], codes,
}
use lap_guard.Config.{defaults}
use lap_guard.Config.Views.{in_home, Paths, api_view, safe_display_path}
use lap_guard.Config.Views.Laws.{Secrets, with_secrets, api_view-with_secrets}
use lap_guard.Config.Views.Redact.{
  redact_attrs, Patterns, LogRecord, handle, string, group, other, attr, no_attrs, secret_key,
  redacted,
}
use lap_guard.Config.Views.Redact.Laws.{IsSafeText, AreSafe, IsLawful, handle-IsSafe}

abbrev other_secrets : Secrets
other_secrets = record {
  webhook_url = codes " ";
  chat_id = [];
  token_hash = [];
  poweroff_path = codes "/sbin/poweroff";
  docker_path = codes "/usr/bin/docker";
  sync_path = [];
}

api_view-with_secrets_example :
    api_view (λ url. true) (with_secrets other_secrets defaults) ≡ api_view (λ url. true) defaults
unfolding trim_space text_eq
api_view-with_secrets_example =
    api_view-with_secrets (λ url. true) other_secrets defaults
      (record { webhook = refl; valid = refl; chat = refl; token = refl })

-- Patterns that find nothing.
abbrev no_matches : Patterns
no_matches = record { replace_bearer = λ s. s; replace_token = λ s. s }

abbrev logged : LogRecord
logged = record {
  message = codes "sending to https://ntfy.sh/x";
  attrs =
      attr (codes "n") (group (attr (codes "Webhook-Url") (string (codes "x")) no_attrs)) no_attrs;
}

-- A pattern that finds every "lg_", and replaces the whole text.
abbrev finds : Text → Bool
finds s = contains s (codes "lg_")

abbrev whole_text : Patterns
whole_text = record {
  replace_bearer = λ s. s;
  replace_token = λ s. if finds s then redacted else s;
}

mark_none : finds redacted ≡ false
unfolding contains has_prefix
mark_none = refl

mark_no_url : contains redacted (codes "://") ≡ false
unfolding contains has_prefix
mark_no_url = refl

whole_text-IsLawful : IsLawful finds whole_text
whole_text-IsLawful = record {
  bearer_url = λ s h. h;
  token_url = λ s h. elim (Bool-cases (finds s)) [ inl e ↦ rw e mark_no_url | inr e ↦ rw e h ];
  none_left = λ s. elim (Bool-cases (finds s)) [ inl e ↦ rw e mark_none | inr e ↦ rw e e ];
  mark = mark_none;
}

handle-IsSafe_example :
    IsSafeText finds (handle whole_text logged).message
    × AreSafe finds (handle whole_text logged).attrs
handle-IsSafe_example = handle-IsSafe finds whole_text whole_text-IsLawful logged

under_key : secret_key (codes " Chat-ID") ≡ true
unfolding secret_key to_lower trim_space contains has_prefix text_eq
under_key = refl

-- An error is no string, and its text stays what it is.
error_kept :
    (handle no_matches (record {
      message = [];
      attrs = attr (codes "err") (other (codes "Post https://ntfy.sh/x: EOF")) no_attrs;
    })).attrs
    ≡ attr (codes "err") (other (codes "Post https://ntfy.sh/x: EOF")) no_attrs
unfolding handle redact_attrs secret_key to_lower trim_space contains has_prefix text_eq
error_kept = refl

abbrev home_paths : Paths
home_paths = record { clean_path = λ p. p; dir = λ p. []; home = some (codes "/home/ann") }

home_hidden :
    safe_display_path home_paths (codes "/home/ann/.config/lapguard/config.json")
    ≡ codes "~/.config/lapguard/config.json"
unfolding safe_display_path in_home text_eq has_prefix trim_space
home_hidden = refl
