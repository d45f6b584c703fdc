-- ===== src/Config/Flags/Laws.antt =====
-- What the settings of a start satisfy, wherever they come from.
use lap_guard.Base.{
  ◌≡◌, ℤ, trim_space, to_lower, refl, pos, leb_ℤ, Bool, true, false, not, Option, none, some, List,
  [], Text, codes, text_eq, mem_text, Result, ok, err, arith, >>=-eq-ok, reject_if, Bool-cases, inl,
  inr,
}
use mathlib.Core.Path.{subst}
use lap_guard.Config.{Config, defaults}
use lap_guard.Config.Normalize.{
  normalize, text_or_default, or_default, known_kinds, known_methods, ConfigError,
}
use lap_guard.Config.Normalize.Idempotence.{
  auto_name, normalize-Turns, fixed-normalize, normalize_idem,
}
use lap_guard.Config.Write.{Files}
use lap_guard.Config.Persist.{
  Codec, LoadError, not_exist, malformed, refused, located, decoded, opened, load_file,
}
use lap_guard.Config.Flags.{
  provider, threshold_method, power_poll, power_debounce, Parsed, CommandLine, invalid_listen,
  Loaded, normalized, read_flags, parse_flags, overlaid, overlaid_interval, overlay_flags, merged,
  with_file, file_path, apply_persistent_config, load, without_file,
}

-- Settings that `normalize` accepts and leaves as they are.
abbrev pub IsNormal : (Text → Bool) → Config → Type 0
IsNormal valid_url c = normalize valid_url c ≡ ok c

-- Settings that differ in a field that `normalize` does not look at.
pub moved-IsNormal :
    (valid_url : Text → Bool) (c : Config) (path : Text)
    → IsNormal valid_url c
    → IsNormal valid_url (record c { config_path = path })
moved-IsNormal valid_url c path h =
    let t = normalize-Turns valid_url c h in
    fixed-normalize valid_url (record c { config_path = path })
      (record {
        kind = t.kind;
        known_kind = t.known_kind;
        method = t.method;
        known_method = t.known_method;
        notifications = t.notifications;
        shutdown = t.shutdown;
        docker = t.docker;
        safety = t.safety;
        auto_drain = t.auto_drain;
        auth = t.auth;
        actions = t.actions;
        poll = t.poll;
        debounce = t.debounce;
      })

overlaid-holds {ℓ κ} :
    {A : Type ℓ} (P : A → Type κ) (on_line : Bool) {flag file : A}
    → P flag
    → P file
    → P (overlaid on_line flag file)
overlaid-holds P true a b = a
overlaid-holds P false a b = b

-- A name that the cleaning of a kind or of a method leaves alone, and that is known.
abbrev IsName : List Text → Text → Type 0
IsName names s = (auto_name s ≡ s) × (mem_text (auto_name s) names ≡ true)

or_auto-IsName :
    (names : List Text) (s : Text)
    → mem_text (codes "auto") names ≡ true
    → IsName names s
    → IsName names (text_or_default (codes "auto") s)
unfolding to_lower trim_space mem_text
or_auto-IsName names s h named = overlaid-holds (IsName names) (text_eq s []) (refl, h) named

kinds_auto : mem_text (codes "auto") known_kinds ≡ true
unfolding mem_text text_eq
kinds_auto = refl

methods_auto : mem_text (codes "auto") known_methods ≡ true
unfolding mem_text text_eq
methods_auto = refl

abbrev IsInterval : ℤ → ℤ → Type 0
IsInterval def v = or_default def v ≡ v

interval-holds :
    (P : ℤ → Type 0) (on_line : Bool) {flag file : ℤ}
    → P flag
    → P file
    → P (overlaid_interval on_line flag file)
interval-holds P on_line {flag} {file} a b =
    overlaid-holds P on_line a (overlaid-holds P (leb_ℤ file (pos 0)) a b)

overlay_flags-IsNormal :
    (valid_url : Text → Bool) (file : Config) (p : Parsed)
    → IsNormal valid_url file
    → IsNormal valid_url p.settings
    → IsNormal valid_url (overlay_flags file p)
unfolding overlay_flags
overlay_flags-IsNormal valid_url file p hf hp =
    let f = normalize-Turns valid_url file hf in
    let l = normalize-Turns valid_url p.settings hp in
    let kind =
      overlaid-holds (IsName known_kinds) (p.flag_set provider) (l.kind, l.known_kind)
        (or_auto-IsName known_kinds file.provider kinds_auto (f.kind, f.known_kind)) in
    let method =
      overlaid-holds (IsName known_methods) (p.flag_set threshold_method) (l.method, l.known_method)
        (or_auto-IsName known_methods file.threshold_method methods_auto
          (f.method, f.known_method)) in
    fixed-normalize valid_url (overlay_flags file p) (record {
      kind = kind.0;
      known_kind = kind.1;
      method = method.0;
      known_method = method.1;
      notifications = f.notifications;
      shutdown = f.shutdown;
      docker = f.docker;
      safety = f.safety;
      auto_drain = f.auto_drain;
      auth = f.auth;
      actions = f.actions;
      poll = interval-holds (IsInterval (pos 5_000_000_000)) (p.flag_set power_poll) l.poll f.poll;
      debounce =
          interval-holds (IsInterval (pos 10_000_000_000)) (p.flag_set power_debounce) l.debounce
            f.debounce;
    })

ok_injective {ℓ} : {A : Type ℓ} {E : Type 0} {a b : A} → ◌≡◌ {A = Result E A} (ok a) (ok b) → a ≡ b
ok_injective h = cc

located-ok :
    (path : Text) (r : Result ConfigError Config) {d : Config}
    → located path r ≡ ok d
    → (b : Config) × (r ≡ ok b) × (record b { config_path = path } ≡ d)
located-ok path (ok b) h = (b, refl, ok_injective h)
located-ok path (err e) h = cc

decoded-IsNormal :
    (valid_url : Text → Bool) (path : Text) (r : Option Config) {d : Config}
    → decoded valid_url path r ≡ ok d
    → IsNormal valid_url d
decoded-IsNormal valid_url path none h = cc
decoded-IsNormal valid_url path (some c) h =
    let (b, e, same) = located-ok path (normalize valid_url c) h in
    subst (IsNormal valid_url) same (moved-IsNormal valid_url b path (normalize_idem valid_url c e))

opened-IsNormal :
    (codec : Codec) (valid_url : Text → Bool) (path : Text) (raw : Option Text) {c : Config}
    → opened codec valid_url path raw ≡ ok c
    → IsNormal valid_url c
opened-IsNormal codec valid_url path none h = cc
opened-IsNormal codec valid_url path (some raw) h =
    decoded-IsNormal valid_url path (codec.decode raw defaults) h

load_file-IsNormal :
    (codec : Codec) (valid_url : Text → Bool) (path : Text) (files : Files) {c : Config}
    → load_file codec valid_url path files ≡ ok c
    → IsNormal valid_url c
unfolding load_file
load_file-IsNormal codec valid_url path files h =
    opened-IsNormal codec valid_url path (files path) h

normalized-ok :
    (valid_url : Text → Bool) (p : Parsed) {q : Parsed}
    → normalized valid_url p ≡ ok q
    → normalize valid_url p.settings ≡ ok q.settings
normalized-ok valid_url p h = ground arith

parse_flags-IsNormal :
    (valid_url : Text → Bool) (line : CommandLine) (over : Config) {p : Parsed}
    → parse_flags valid_url line over ≡ ok p
    → IsNormal valid_url p.settings
unfolding parse_flags
parse_flags-IsNormal valid_url line over h =
    let (raw, _, h1) = >>=-eq-ok (read_flags (line.parse over)) _ h in
    let (clean, e, h2) = >>=-eq-ok (normalized valid_url raw) _ h1 in
    let (_, _, done) =
      >>=-eq-ok (reject_if (not (line.splits clean.settings.listen)) invalid_listen) _ h2 in
    subst (λ q. IsNormal valid_url q.settings) (ok_injective done)
      (normalize_idem valid_url raw.settings (normalized-ok valid_url raw e))

with_file-IsNormal :
    (valid_url : Text → Bool) (p : Parsed) (path : Text) (r : Result LoadError Config) {l : Loaded}
    → IsNormal valid_url p.settings
    → ((c : Config) → r ≡ ok c → IsNormal valid_url c)
    → with_file p (record p.settings { config_path = path }) path r ≡ ok l
    → IsNormal valid_url l.settings
unfolding with_file merged without_file
with_file-IsNormal valid_url p path (ok file) hp hf h =
    subst (λ l. IsNormal valid_url l.settings) (ok_injective h)
      (moved-IsNormal valid_url (overlay_flags file p) path
        (overlay_flags-IsNormal valid_url file p (hf file refl) hp))
with_file-IsNormal valid_url p path (err not_exist) hp hf h =
    subst (λ l. IsNormal valid_url l.settings) (ok_injective h)
      (moved-IsNormal valid_url p.settings path hp)
with_file-IsNormal valid_url p path (err malformed) hp hf h = cc
with_file-IsNormal valid_url p path (err (refused e)) hp hf h = cc

apply_persistent_config-IsNormal :
    (valid_url : Text → Bool) (default_path : Option Text) (read : Text → Result LoadError Config)
    (p : Parsed) {l : Loaded}
    → IsNormal valid_url p.settings
    → ((path : Text) (c : Config) → read path ≡ ok c → IsNormal valid_url c)
    → apply_persistent_config default_path read p ≡ ok l
    → IsNormal valid_url l.settings
unfolding apply_persistent_config without_file
apply_persistent_config-IsNormal valid_url default_path read p hp hf h =
    let path = file_path default_path p in
    elim (Bool-cases (text_eq path [])) [
      | inl e ↦ subst (λ l. IsNormal valid_url l.settings) (ok_injective (rw e at h)) hp
      | inr e ↦ with_file-IsNormal valid_url p path (read path) hp (hf path) (rw e at h)
    ]

-- Whatever `Load` returns, from the command line, the file or both, is settings that `normalize`
-- accepts and leaves as they are, so that a start never runs on settings out of range.
pub load-IsNormal :
    (codec : Codec) (valid_url : Text → Bool) (line : CommandLine) (default_path : Option Text)
    (files : Files) {l : Loaded}
    → load valid_url line default_path (λ path. load_file codec valid_url path files) ≡ ok l
    → IsNormal valid_url l.settings
unfolding load
load-IsNormal codec valid_url line default_path files h =
    let (p, parsed, h1) = >>=-eq-ok (parse_flags valid_url line defaults) _ h in
    apply_persistent_config-IsNormal valid_url default_path _ p
      (parse_flags-IsNormal valid_url line defaults parsed)
      (λ path c. load_file-IsNormal codec valid_url path files) h1
