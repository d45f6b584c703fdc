-- ===== src/Config/Persist/Coders.antt =====
-- A coder of settings that decodes what it encodes, as an instance of what is asked of Go's.
use lap_guard.Base.{
  ◌≡◌, refl, ap, ℕ, zero, suc, ℤ, pos, negsuc, Bool, true, false, Option, none, some, List, [], ◌∷◌,
  ◌++◌, Text,
}
use lap_guard.Config.{
  NotificationsConfig, ShutdownConfig, DockerConfig, SafetyConfig, AutoDrainConfig, ActionsConfig,
  AuthConfig,
}
use lap_guard.Config.Persist.{PersistDto, Codec, newline, dto_of}
use lap_guard.Config.Persist.Laws.{IsLawful, from_dto}

-- Writes a value before a text, and reads it back from there.
record Coder (A : Type 0) : Type 0 where
  write : A → Text → Text
  read : Text → Option (A × Text)
  law : (a : A) (rest : Text) → read (write a rest) ≡ some (a, rest)

abbrev then_read {κ} :
    {A : Type 0} {B : Type κ} → Option (A × Text) → (A → Text → Option B) → Option B
then_read none next = none
then_read (some (a, rest)) next = next a rest

pair_coder : {A B : Type 0} → Coder A → Coder B → Coder (A × B)
pair_coder a b = record {
  write = λ (x, y) rest. a.write x (b.write y rest);
  read = λ s. then_read (a.read s) λ x s1. then_read (b.read s1) λ y s2. some ((x, y), s2);
  law = λ (x, y) rest. rw (a.law x (b.write y rest), b.law y rest) refl;
}

-- A coder of `B` through a type that it is taken apart into.
via : {A B : Type 0} (to : B → A) (from : A → B) → ((b : B) → from (to b) ≡ b) → Coder A → Coder B
via to from back a = record {
  write = λ b rest. a.write (to b) rest;
  read = λ s. then_read (a.read s) λ x rest. some (from x, rest);
  law = λ b rest. rw (a.law (to b) rest, back b) refl;
}

write_bool : Bool → Text → Text
write_bool false rest = 0 ∷ rest
write_bool true rest = 1 ∷ rest

read_bool : Text → Option (Bool × Text)
read_bool [] = none
read_bool (zero ∷ rest) = some (false, rest)
read_bool (suc n ∷ rest) = some (true, rest)

read-write_bool : (b : Bool) (rest : Text) → read_bool (write_bool b rest) ≡ some (b, rest)
unfolding read_bool write_bool
read-write_bool false rest = refl
read-write_bool true rest = refl

bool_coder : Coder Bool
unfolding read_bool write_bool
bool_coder = record { write = write_bool; read = read_bool; law = read-write_bool }

write_int : ℤ → Text → Text
write_int (pos n) rest = 0 ∷ n ∷ rest
write_int (negsuc n) rest = 1 ∷ n ∷ rest

read_int : Text → Option (ℤ × Text)
read_int [] = none
read_int (s ∷ []) = none
read_int (zero ∷ n ∷ rest) = some (pos n, rest)
read_int (suc s ∷ n ∷ rest) = some (negsuc n, rest)

read-write_int : (i : ℤ) (rest : Text) → read_int (write_int i rest) ≡ some (i, rest)
unfolding read_int write_int
read-write_int (pos n) rest = refl
read-write_int (negsuc n) rest = refl

int_coder : Coder ℤ
int_coder = record { write = write_int; read = read_int; law = read-write_int }

read_number : Text → Option (ℕ × Text)
read_number [] = none
read_number (n ∷ rest) = some (n, rest)

number_coder : Coder ℕ
unfolding read_number
number_coder = record { write = λ n rest. n ∷ rest; read = read_number; law = λ n rest. refl }

-- A list is written after its length.
size : {A : Type 0} → List A → ℕ
size [] = 0
size (x ∷ xs) = suc (size xs)

write_all : {A : Type 0} → Coder A → List A → Text → Text
write_all c [] rest = rest
write_all c (x ∷ xs) rest = c.write x (write_all c xs rest)

read_many : {A : Type 0} → Coder A → ℕ → Text → Option (List A × Text)
read_many c zero s = some ([], s)
read_many c (suc n) s =
    then_read (c.read s) λ x s1. then_read (read_many c n s1) λ xs s2. some (x ∷ xs, s2)

read-write_all :
    {A : Type 0} (c : Coder A) (xs : List A) (rest : Text)
    → read_many c (size xs) (write_all c xs rest) ≡ some (xs, rest)
unfolding read_many write_all size
read-write_all c [] rest = refl
read-write_all c (x ∷ xs) rest = rw (c.law x (write_all c xs rest), read-write_all c xs rest) refl

read_list : {A : Type 0} → Coder A → Text → Option (List A × Text)
read_list c [] = none
read_list c (n ∷ rest) = read_many c n rest

list_coder : {A : Type 0} → Coder A → Coder (List A)
unfolding read_list
list_coder c = record {
  write = λ xs rest. size xs ∷ write_all c xs rest;
  read = read_list c;
  law = read-write_all c;
}

text_coder : Coder Text
text_coder = list_coder number_coder

notifications_coder : Coder NotificationsConfig
notifications_coder =
    via (λ x. (x.provider, (x.enabled, (x.dry_run, (x.webhook_url, x.chat_id)))))
      (λ (provider, (enabled, (dry_run, (webhook_url, chat_id)))). record {
        provider = provider;
        enabled = enabled;
        dry_run = dry_run;
        webhook_url = webhook_url;
        chat_id = chat_id;
      })
      (λ x. refl)
      (pair_coder text_coder
        (pair_coder bool_coder (pair_coder bool_coder (pair_coder text_coder text_coder))))

shutdown_coder : Coder ShutdownConfig
shutdown_coder =
    via (λ x. (x.enabled, (x.warning_threshold, x.critical_threshold)))
      (λ (enabled, (warning_threshold, critical_threshold)). record {
        enabled = enabled;
        warning_threshold = warning_threshold;
        critical_threshold = critical_threshold;
      })
      (λ x. refl) (pair_coder bool_coder (pair_coder int_coder int_coder))

docker_coder : Coder DockerConfig
docker_coder =
    via (λ x. (x.stop_enabled, x.timeout_seconds))
      (λ (stop_enabled, timeout_seconds). record {
        stop_enabled = stop_enabled;
        timeout_seconds = timeout_seconds;
      })
      (λ x. refl) (pair_coder bool_coder int_coder)

safety_coder : Coder SafetyConfig
safety_coder =
    via (λ x. (x.dry_run, (x.require_ac_loss, (x.minimum_battery_percent, x.cooldown_seconds))))
      (λ (dry_run, (require_ac_loss, (minimum_battery_percent, cooldown_seconds))). record {
        dry_run = dry_run;
        require_ac_loss = require_ac_loss;
        minimum_battery_percent = minimum_battery_percent;
        cooldown_seconds = cooldown_seconds;
      })
      (λ x. refl) (pair_coder bool_coder (pair_coder bool_coder (pair_coder int_coder int_coder)))

auto_drain_coder : Coder AutoDrainConfig
auto_drain_coder =
    via
      (λ x. (
        x.enabled,
        (
          x.battery_threshold_percent,
          (
            x.pre_notification_minutes,
            (x.response_timeout_minutes, (x.notification_services, x.on_user_no)),
          ),
        ),
      ))
      (λ (
        enabled,
        (
          battery_threshold_percent,
          (
            pre_notification_minutes,
            (response_timeout_minutes, (notification_services, on_user_no)),
          ),
        ),
      ).
        record {
          enabled = enabled;
          battery_threshold_percent = battery_threshold_percent;
          pre_notification_minutes = pre_notification_minutes;
          response_timeout_minutes = response_timeout_minutes;
          notification_services = notification_services;
          on_user_no = on_user_no;
        })
      (λ x. refl)
      (pair_coder bool_coder (
        pair_coder int_coder (
          pair_coder int_coder
            (pair_coder int_coder (pair_coder (list_coder text_coder) text_coder)))))

auth_coder : Coder AuthConfig
auth_coder =
    via
      (λ x.
        (x.enabled, (x.allow_loopback_no_token, (x.token_hash, (x.created_at, x.last_rotated_at)))))
      (λ (enabled, (allow_loopback_no_token, (token_hash, (created_at, last_rotated_at)))). record {
        enabled = enabled;
        allow_loopback_no_token = allow_loopback_no_token;
        token_hash = token_hash;
        created_at = created_at;
        last_rotated_at = last_rotated_at;
      })
      (λ x. refl)
      (pair_coder bool_coder
        (pair_coder bool_coder (pair_coder text_coder (pair_coder text_coder text_coder))))

actions_coder : Coder ActionsConfig
actions_coder =
    via
      (λ x. (
        x.real_enabled,
        (
          x.require_confirmation,
          (
            x.cooldown_seconds,
            (x.poweroff_path, (x.docker_path, (x.sync_path, x.poweroff_timeout_secs))),
          ),
        ),
      ))
      (λ (
        real_enabled,
        (
          require_confirmation,
          (cooldown_seconds, (poweroff_path, (docker_path, (sync_path, poweroff_timeout_secs)))),
        ),
      ).
        record {
          real_enabled = real_enabled;
          require_confirmation = require_confirmation;
          cooldown_seconds = cooldown_seconds;
          poweroff_path = poweroff_path;
          docker_path = docker_path;
          sync_path = sync_path;
          poweroff_timeout_secs = poweroff_timeout_secs;
        })
      (λ x. refl)
      (pair_coder bool_coder (
        pair_coder bool_coder (
          pair_coder int_coder
            (pair_coder text_coder (pair_coder text_coder (pair_coder text_coder int_coder))))))

dto_coder : Coder PersistDto
dto_coder =
    via
      (λ x. (
        x.listen,
        (
          x.provider,
          (
            x.sysfs_root,
            (
              x.battery_name,
              (
                x.web_dir,
                (
                  x.log_json,
                  (
                    x.threshold_method,
                    (
                      x.notifications,
                      (
                        x.shutdown,
                        (x.docker, (x.safety, (x.auto_drain, (x.auth, (x.actions, x.events_db))))),
                      ),
                    ),
                  ),
                ),
              ),
            ),
          ),
        ),
      ))
      (λ (
        listen,
        (
          provider,
          (
            sysfs_root,
            (
              battery_name,
              (
                web_dir,
                (
                  log_json,
                  (
                    threshold_method,
                    (
                      notifications,
                      (shutdown, (docker, (safety, (auto_drain, (auth, (actions, events_db)))))),
                    ),
                  ),
                ),
              ),
            ),
          ),
        ),
      ).
        record {
          listen = listen;
          provider = provider;
          sysfs_root = sysfs_root;
          battery_name = battery_name;
          web_dir = web_dir;
          log_json = log_json;
          threshold_method = threshold_method;
          notifications = notifications;
          shutdown = shutdown;
          docker = docker;
          safety = safety;
          auto_drain = auto_drain;
          auth = auth;
          actions = actions;
          events_db = events_db;
        })
      (λ x. refl)
      (pair_coder text_coder (
        pair_coder text_coder (
          pair_coder text_coder (
            pair_coder text_coder (
              pair_coder text_coder (
                pair_coder bool_coder (
                  pair_coder text_coder (
                    pair_coder notifications_coder (
                      pair_coder shutdown_coder (
                        pair_coder docker_coder (
                          pair_coder safety_coder (
                            pair_coder auto_drain_coder (
                              pair_coder auth_coder
                                (pair_coder actions_coder text_coder))))))))))))))

drop_last : Text → Text
drop_last [] = []
drop_last (c ∷ []) = []
drop_last (c ∷ d ∷ s) = c ∷ drop_last (d ∷ s)

drop_last-append : (s : Text) (c : ℕ) → drop_last (s ++ c ∷ []) ≡ s
unfolding drop_last
drop_last-append [] c = refl
drop_last-append (d ∷ []) c = refl
drop_last-append (d ∷ e ∷ s) c = ap (λ t. d ∷ t) (drop_last-append (e ∷ s) c)

-- The coder of settings; what it reads is set over the defaults of the rest. The last character
-- is the newline that `Save` adds.
pub listed : Codec
listed = record {
  encode = λ p. dto_coder.write p [];
  decode = λ s c. then_read (dto_coder.read (drop_last s)) λ p rest. some (from_dto p);
}

pub listed-IsLawful : IsLawful listed
unfolding listed
listed-IsLawful c v =
    rw (drop_last-append (dto_coder.write (dto_of c) []) newline, dto_coder.law (dto_of c) []) refl
