-- ===== src/Config/Views/Laws.antt =====
-- The API's view of the settings tells nothing of the secrets.
use lap_guard.Base.{◌≡◌, refl, Bool, Text, trim_space}
use lap_guard.Config.{
  Config, host_execution_state, notifications_execution_state, provider_configured, intended_plan,
  action_gates, manual_actions_ready,
}
use lap_guard.Config.Auth.{view}
use lap_guard.Config.Views.{api_view, public_view, actions_view, is_blank}

-- The texts that no one but the owner of the machine should see.
pub record Secrets : Type 0 where
  pub webhook_url : Text
  pub chat_id : Text
  pub token_hash : Text
  pub poweroff_path : Text
  pub docker_path : Text
  pub sync_path : Text

-- The settings `c` with other secrets in place of its own.
abbrev pub with_secrets : Secrets → Config → Config
with_secrets s c = record c {
  notifications = record c.notifications { webhook_url = s.webhook_url; chat_id = s.chat_id };
  auth = record c.auth { token_hash = s.token_hash };
  actions = record c.actions {
    poweroff_path = s.poweroff_path;
    docker_path = s.docker_path;
    sync_path = s.sync_path;
  };
}

-- The secrets are present where those of `c` are, and the URL is as good.
pub record AreAlike (valid_url : Text → Bool) (s : Secrets) (c : Config) : Type 0 where
  pub webhook : is_blank s.webhook_url ≡ is_blank c.notifications.webhook_url
  pub valid :
      valid_url (trim_space s.webhook_url) ≡ valid_url (trim_space c.notifications.webhook_url)
  pub chat : is_blank s.chat_id ≡ is_blank c.notifications.chat_id
  pub token : is_blank s.token_hash ≡ is_blank c.auth.token_hash

-- What GET and PUT of the settings answer is the same whatever the webhook URL, the chat id, the
-- digest of the token and the paths of the executables are: only which of the first three are
-- set, and whether the URL can be used, shows.
pub api_view-with_secrets :
    (valid_url : Text → Bool) (s : Secrets) (c : Config)
    → AreAlike valid_url s c
    → api_view valid_url (with_secrets s c) ≡ api_view valid_url c
unfolding api_view public_view actions_view view host_execution_state intended_plan action_gates
    manual_actions_ready notifications_execution_state provider_configured
api_view-with_secrets valid_url s c alike =
    rw (alike.webhook, alike.valid, alike.chat, alike.token) refl
