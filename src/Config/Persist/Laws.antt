-- ===== src/Config/Persist/Laws.antt =====
-- The settings survive being stored and read back.
use lap_guard.Base.{
  true, false, Bool, ◌⊎◌, inl, inr, ◌≡◌, refl, Bool, false, none, some, [], Text, text_eq, ok,
  arith,
}
use mathlib.Core.Path.{subst}
use lap_guard.Config.{Config, defaults}
use lap_guard.Config.Normalize.{normalize}
use lap_guard.Config.Normalize.Bounds.{IsValid, normalize-IsValid}
use lap_guard.Config.Normalize.Idempotence.{Turns, normalize-Turns, fixed-normalize, Turns-again}
use lap_guard.Config.Write.{Files, WriteEnv, Written, atomic_write_file}
use lap_guard.Config.Write.Laws.{IsAtomic, atomic_write_file-IsAtomic}
use lap_guard.Config.Persist.{PersistDto, Codec, dto_of, with_newline, save_file, load_file}

-- The settings that hold the fields `p`, all else at its default.
abbrev pub from_dto : PersistDto → Config
from_dto p = record defaults {
  listen = p.listen;
  provider = p.provider;
  sysfs_root = p.sysfs_root;
  battery_name = p.battery_name;
  web_dir = p.web_dir;
  log_json = p.log_json;
  threshold_method = p.threshold_method;
  notifications = p.notifications;
  shutdown = p.shutdown;
  docker = p.docker;
  safety = p.safety;
  auto_drain = p.auto_drain;
  auth = p.auth;
  actions = p.actions;
  events_db = p.events_db;
}

-- What is documented of Go's coder: decoding what was encoded, over the default settings, sets the
-- fields that were encoded. It is asked of settings in their ranges only: `poweroff_timeout_seconds`,
-- which is left out where it is zero, has another default.
abbrev pub IsLawful : Codec → Type 0
IsLawful codec =
    (c : Config)
    → IsValid c
    → codec.decode (with_newline (codec.encode (dto_of c))) defaults ≡ some (from_dto (dto_of c))

-- What the file does not hold is back at its default.
abbrev pub restarted : Text → Config → Config
restarted path c = record c {
  power_poll = defaults.power_poll;
  power_debounce = defaults.power_debounce;
  config_path = path;
}

-- The fields outside the file do not matter to the parts that `normalize` looks at.
restarted-Turns :
    (valid_url : Text → Bool) (c : Config) (at : Text)
    → Turns valid_url c c
    → Turns valid_url (restarted at c) (restarted at c)
restarted-Turns valid_url c at t = record {
  kind = t.kind;
  known_kind = t.known_kind;
  method = t.method;
  known_method = t.known_method;
  notifications = t.notifications;
  shutdown = t.shutdown;
  docker = t.docker;
  safety = t.safety;
  auto_drain = t.auto_drain;
  auth = t.auth;
  actions = t.actions;
  poll = refl;
  debounce = refl;
}

pub load_stored :
    (codec : Codec) (valid_url : Text → Bool) (path : Text) (files : Files) (raw c : Config)
    → IsLawful codec
    → normalize valid_url raw ≡ ok c
    → files path ≡ some (with_newline (codec.encode (dto_of c)))
    → load_file codec valid_url path files ≡ ok (restarted path c)
unfolding load_file
load_stored codec valid_url path files raw c law h stored =
    let fixed = fixed-normalize valid_url (restarted [] c) (
      restarted-Turns valid_url c []
        (Turns-again valid_url raw c (normalize-Turns valid_url raw h))) in
    rw (stored, law c (normalize-IsValid valid_url raw h), fixed) refl

save_file-states :
    (codec : Codec) (e : WriteEnv) (path : Text) (c : Config) (files : Files) {w : Written}
    → save_file codec e path c files ≡ some w
    → atomic_write_file e path (with_newline (codec.encode (dto_of c))) files ≡ w
unfolding save_file
save_file-states codec e path c files h = ground arith

stored_new : {failed : Bool} {A : Type 0} → (failed ≡ true) ⊎ A → failed ≡ false → A
stored_new (inl h) fine = cc
stored_new (inr a) fine = a

-- Settings that `normalize` has made, stored without an error, are what the next start reads from
-- the file; only the two intervals of the power watcher, which the file does not hold, are back at
-- their defaults. The coder decodes what it has encoded of settings in their ranges, and the
-- temporary name is not the path's and was not taken.
pub load_file-save_file :
    (codec : Codec) (valid_url : Text → Bool) (e : WriteEnv) (path : Text) (files : Files)
    (raw c : Config) {w : Written}
    → IsLawful codec
    → text_eq path e.temp ≡ false
    → files e.temp ≡ none
    → normalize valid_url raw ≡ ok c
    → save_file codec e path c files ≡ some w
    → w.failed ≡ false
    → load_file codec valid_url path w.final ≡ ok (restarted path c)
load_file-save_file codec valid_url e path files raw c law apart fresh h saved fine =
    let raw_text = with_newline (codec.encode (dto_of c)) in
    let atomic =
      subst (IsAtomic path raw_text e.temp e.removed files)
        (save_file-states codec e path c files saved)
        (atomic_write_file-IsAtomic e path raw_text files apart fresh) in
    load_stored codec valid_url path _ raw c law h (stored_new atomic.done fine)
