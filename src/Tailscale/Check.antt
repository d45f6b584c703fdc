-- ===== src/Tailscale/Check.antt =====
-- The read-only diagnostics of internal/tailscale: check.go and redact.go. The regular expressions,
-- the address parser, the search for the binary and the running of a command are parameters.
pub mod Laws
mod Examples
use lap_guard.Base.{
  ◌==◌, reverse, is_some, ℕ, Bool, true, false, ◌&&◌, ◌||◌, not, Option, none, some, List, [], ◌∷◌,
  ◌++◌, Text, codes, text_eq, trim_space, to_lower, contains, has_prefix, Result, ok, err,
  if◌then◌else◌,
}
use lap_guard.Tailscale.{Refusal, allow}

-- The regular expressions of redact.go: each replaces its matches by the mark, and the first hands
-- them to a function.
pub record Redactions : Type 0 where
  pub replace_urls : (Text → Text) → Text → Text
  pub replace_tskey : Text → Text
  pub replace_nkey : Text → Text
  pub replace_tsnet : Text → Text
  pub replace_email : Text → Text
  pub replace_login : Text → Text

abbrev pub redacted : Text
redacted = codes "[redacted]"

unfoldable pub redact_url : Text → Text
redact_url m =
    let lower = to_lower m in
    if contains lower (codes "127.0.0.1")
      || (contains lower (codes "localhost") || contains lower (codes "[::1]"))
    then m
    else if has_prefix lower (codes "https://tailscale.com/") && not (contains lower (codes "/a/"))
    then m
    else redacted

unfoldable pub redact : Redactions → Text → Text
unfolding redact_url
redact r s = trim_space (
    r.replace_login (
      r.replace_email
        (r.replace_tsnet (r.replace_nkey (r.replace_tskey (r.replace_urls redact_url s))))))

-- The regular expressions of check.go; `version_of` gives the first group of the first match, and
-- `ipv4_in` all matches. `is_ipv4` is `ParseIP` with `To4`.
pub record Matchers : Type 0 where
  pub version_of : Text → Option Text
  pub ipv4_in : Text → List Text
  pub is_ipv4 : Text → Bool
  pub no_serve : Text → Bool
  pub funnel_hint : Text → Bool
  pub logged_out : Text → Bool
  pub stopped : Text → Bool
  pub proxy_local : Text → Bool
  pub serve_active : Text → Bool

pub data CtxError : Type 0 where
  cancelled deadline_exceeded : CtxError

-- What running a command comes to: its output, its error, and the state of its context.
pub record Outcome : Type 0 where
  pub output : Text
  pub error : Option Text
  pub timed_out : Bool
  pub ctx_done : Option CtxError

-- The machine; `over` is the state of the caller's context when a command is about to run, and
-- `refusal_text` the sentence that `allow` makes of a refusal.
pub record Host : Type 0 where
  pub look_path : Option Text
  pub over : List Text → Option CtxError
  pub run : Text → List Text → Outcome
  pub refusal_text : Text → List Text → Refusal → Text
  pub redactions : Redactions
  pub matchers : Matchers

pub data RunError : Type 0 where
  refused : Refusal → RunError
  ctx_over : CtxError → RunError
  timed_out failed : Text → RunError

-- The commands that were run, newest first.
abbrev pub Calls : Type 0
Calls = List (Text × List Text)

pub record Answer : Type 0 where
  pub text : Text
  pub error : Option RunError

-- `strings.Join(args, " ")`.
unfoldable pub joined : List Text → Text
joined [] = []
joined (a ∷ []) = a
joined (a ∷ b ∷ rest) = a ++ (codes " " ++ joined (b ∷ rest))

abbrev fmt_timeout : List Text → Text
fmt_timeout args = codes "tailscale " ++ (joined args ++ codes " timed out")

unfoldable pub is_deadline : Option CtxError → Bool
is_deadline (some deadline_exceeded) = true
is_deadline (some cancelled) = false
is_deadline none = false

-- The branches of `runAllowed` on an error of the command.
unfoldable pub run_error : List Text → Outcome → Text → Option RunError
unfolding is_deadline
run_error args o problem =
    if is_deadline o.ctx_done || o.timed_out
    then some (timed_out (fmt_timeout args))
    else elim o.ctx_done [ some e ↦ some (ctx_over e) | none ↦ some (failed problem) ]

unfoldable pub answered : Host → List Text → Outcome → Answer
unfolding run_error
answered h args o = record {
  text = redact h.redactions o.output;
  error = elim o.error [ none ↦ none | some problem ↦ run_error args o problem ];
}

abbrev unanswered : RunError → Answer
unanswered e = record { text = []; error = some e }

abbrev executed : Host → Text → List Text → Calls → Option CtxError → Calls × Answer
executed h path args calls (some e) = (calls, unanswered (ctx_over e))
executed h path args calls none = ((path, args) ∷ calls, answered h args (h.run path args))

abbrev if_allowed : Host → Text → List Text → Calls → Result Refusal (Unit {0}) → Calls × Answer
if_allowed h path args calls (err r) = (calls, unanswered (refused r))
if_allowed h path args calls (ok done) = executed h path args calls (h.over args)

unfoldable pub run_allowed : Host → Text → List Text → Calls → Calls × Answer
unfolding answered
run_allowed h path args calls = if_allowed h path args calls (allow path args)

-- The text of an error, and whether it is the end of a deadline.
abbrev pub message : Host → Text → List Text → RunError → Text
message h path args (refused r) = h.refusal_text path args r
message h path args (ctx_over cancelled) = codes "context canceled"
message h path args (ctx_over deadline_exceeded) = codes "context deadline exceeded"
message h path args (timed_out text) = text
message h path args (failed text) = text

is_deadline_error : RunError → Bool
is_deadline_error (ctx_over e) = is_deadline (some e)
is_deadline_error (refused r) = false
is_deadline_error (timed_out text) = false
is_deadline_error (failed text) = false

unfoldable pub command_warn : Host → Text → List Text → RunError → Text
unfolding is_deadline_error is_deadline
command_warn h path args e =
    let text = message h path args e in
    if is_deadline_error e || contains (to_lower text) (codes "timed out")
    then codes "tailscale "
      ++ (joined args ++ codes " timed out (read-only probe; no state was changed)")
    else codes "tailscale " ++ (joined args ++ (codes " failed: " ++ redact h.redactions text))

-- `strings.Split(out, "\n")`; `line` is the line so far, newest first.
lines_from : Text → Text → List Text
lines_from line [] = reverse line ∷ []
lines_from line (c ∷ s) =
    if c == 10 then reverse line ∷ lines_from [] s else lines_from (c ∷ line) s

version_in : Host → List Text → Text
version_in h [] = []
version_in h (raw ∷ rest) =
    let line = trim_space (redact h.redactions raw) in
    let later = version_in h rest in
    if text_eq line [] || has_prefix line redacted
    then later
    else elim (h.matchers.version_of line) [ some v ↦ v | none ↦ later ]

unfoldable pub parse_version : Host → Text → Text
unfolding version_in lines_from
parse_version h out = version_in h (lines_from [] out)

first_of : (Text → Bool) → List Text → Text
first_of p [] = []
first_of p (m ∷ rest) = if p m then m else first_of p rest

unfoldable pub first_ipv4 : Matchers → Text → Text
unfolding first_of
first_ipv4 m out = first_of m.is_ipv4 (m.ipv4_in out)

-- `parseServe`: the second result is always true.
unfoldable pub parse_serve : Matchers → Text → Bool
parse_serve m out =
    let text = trim_space out in
    if text_eq text []
    then false
    else if m.no_serve text
    then false
    else m.serve_active text || m.proxy_local text

abbrev is_empty {ℓ} : {A : Type ℓ} → List A → Bool
is_empty [] = true
is_empty (x ∷ xs) = false

-- `parseConnected`; `none` where the answer is not known.
unfoldable pub parse_connected : Matchers → Answer → Text → Option RunError → Option Bool
parse_connected m status ipv4 ip_error =
    if not (is_some ip_error) && not (text_eq ipv4 [])
    then some true
    else if is_some status.error && text_eq (trim_space status.text) []
    then none
    else if m.logged_out status.text || m.stopped status.text
    then some false
    else if not (is_empty (m.ipv4_in status.text))
    then some true
    else none

-- Empty warnings are dropped.
unfoldable pub redact_warnings : Redactions → List Text → List Text
redact_warnings r [] = []
redact_warnings r (w ∷ rest) =
    let shown = redact r w in
    let later = redact_warnings r rest in if text_eq shown [] then later else shown ∷ later

-- The report without its constants: the listen address, the recommended access, the instructions.
pub record Report : Type 0 where
  pub tailscale_installed : Bool
  pub tailscale_version : Text
  pub tailnet_connected : Option Bool
  pub ipv4 : Text
  pub serve_configured : Option Bool
  pub warnings : List Text

abbrev pub serve_command : Text
serve_command = codes "sudo tailscale serve --bg http://127.0.0.1:8585"

abbrev pub install_hint : Text
install_hint =
    codes
      "The tailscale executable was not found on PATH. Install Tailscale separately from https://tailscale.com/download and authenticate this machine, then configure Serve."

abbrev funnel_warning : Text
funnel_warning =
    codes
      "Tailscale Funnel appears to be enabled. Disable Funnel. LapGuard has no application-level authentication and must not be exposed to the public Internet."

abbrev not_configured_warning : Text
not_configured_warning =
    codes "Tailscale Serve does not appear to be configured for this node. Run "
    ++ (serve_command ++ codes " yourself (LapGuard will not).")

abbrev elsewhere_warning : Text
elsewhere_warning =
    codes
      "Serve is configured but does not mention 127.0.0.1:8585. Point Serve at http://127.0.0.1:8585."

abbrev disconnected_warning : Text
disconnected_warning =
    codes
      "Tailscale does not appear to be connected to a tailnet. Authenticate this machine with Tailscale before using Serve."

abbrev pub version_args : List Text
version_args = codes "version" ∷ []

abbrev pub status_args : List Text
status_args = codes "status" ∷ []

abbrev pub ip_args : List Text
ip_args = codes "ip" ∷ codes "-4" ∷ []

abbrev pub serve_args : List Text
serve_args = codes "serve" ∷ codes "status" ∷ []

-- The warning about a command that failed.
abbrev failure : Host → Text → List Text → Option RunError → List Text
failure h path args none = []
failure h path args (some e) = command_warn h path args e ∷ []

-- A part of the report that a command fills in where it does not fail.
abbrev pub from_answer {ℓ} : {A : Type ℓ} → Answer → A → (Text → A) → A
from_answer a otherwise f = elim a.error [ none ↦ f a.text | some e ↦ otherwise ]

abbrev when : Bool → Text → List Text
when true w = w ∷ []
when false w = []

-- What is said about the output of `serve status`.
unfoldable pub serve_warnings : Matchers → Text → List Text
serve_warnings m out =
    let configured = parse_serve m out in
    when (m.funnel_hint out) funnel_warning
    ++ (if not configured
        then not_configured_warning ∷ []
        else when (not (m.proxy_local out)) elsewhere_warning)

abbrev connected_warnings : Option Bool → List Text
connected_warnings none = []
connected_warnings (some true) = []
connected_warnings (some false) = disconnected_warning ∷ []

-- The report that four answers make.
unfoldable pub report_of : Host → Text → (version status ip serve : Answer) → Report
unfolding serve_warnings
report_of h path version status ip serve =
    let ipv4 = from_answer ip [] (first_ipv4 h.matchers) in
    let connected = parse_connected h.matchers status ipv4 ip.error in
    record {
      tailscale_installed = true;
      tailscale_version = from_answer version [] (parse_version h);
      tailnet_connected = connected;
      ipv4 = ipv4;
      serve_configured = from_answer serve none λ out. some (parse_serve h.matchers out);
      warnings = redact_warnings h.redactions (
          failure h path version_args version.error
          ++ (failure h path status_args status.error
              ++ (failure h path ip_args ip.error
                  ++ (failure h path serve_args serve.error
                      ++ (from_answer serve [] (serve_warnings h.matchers)
                          ++ connected_warnings connected)))));
    }

unfoldable pub not_installed : Host → Report
not_installed h = record {
  tailscale_installed = false;
  tailscale_version = [];
  tailnet_connected = none;
  ipv4 = [];
  serve_configured = none;
  warnings = redact_warnings h.redactions (install_hint ∷ []);
}

unfoldable pub check_at : Host → Text → Calls × Report
unfolding report_of
check_at h path =
    let (c1, version) = run_allowed h path version_args [] in
    let (c2, status) = run_allowed h path status_args c1 in
    let (c3, ip) = run_allowed h path ip_args c2 in
    let (c4, serve) = run_allowed h path serve_args c3 in
    (c4, report_of h path version status ip serve)

-- The rest of `Check` once `LookPath` has answered.
unfoldable pub checked : Host → Option Text → Calls × Report
unfolding check_at not_installed
checked h none = ([], not_installed h)
checked h (some path) =
    if text_eq (trim_space path) [] then ([], not_installed h) else check_at h path

-- `Check`: the commands that were run, newest first, and the report.
unfoldable pub check : Host → Calls × Report
unfolding checked
check h = checked h h.look_path
