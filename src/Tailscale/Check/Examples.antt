-- ===== src/Tailscale/Check/Examples.antt =====
-- The diagnostics on a concrete machine.
use lap_guard.Base.{
  if◌then◌else◌, text_eq, mem_text, to_lower, trim_space, has_prefix, refl, ◌≡◌, true, to_lower,
  has_prefix, ◌≡◌, refl, true, false, none, some, List, [], ◌∷◌, Text, codes, text_eq, contains,
}
use lap_guard.Config.Normalize.{base}
use lap_guard.Tailscale.{allow, equal_fold, any_refused, args_allowed}
use lap_guard.Tailscale.Check.{
  checked, check_at, run_allowed, report_of, redact_warnings, redact, command_warn, joined,
  answered, parse_connected, first_ipv4, allow, run_allowed, check_at, checked, Host, Redactions,
  Matchers, Outcome, check, redact_url, redacted, version_args, status_args, ip_args, serve_args,
}
use lap_guard.Tailscale.Check.Laws.{IsHarmless, check-IsHarmless}

-- Patterns that find an address of Tailscale's in the output of `ip -4` and nothing else.
abbrev plain_matchers : Matchers
plain_matchers = record {
  version_of = λ line. some line;
  ipv4_in = λ s. s ∷ [];
  is_ipv4 = λ s. true;
  no_serve = λ s. false;
  funnel_hint = λ s. contains s (codes "funnel");
  logged_out = λ s. false;
  stopped = λ s. false;
  proxy_local = λ s. contains s (codes "127.0.0.1:8585");
  serve_active = λ s. contains s (codes "proxy");
}

abbrev plain_redactions : Redactions
plain_redactions = record {
  replace_urls = λ f s. s;
  replace_tskey = λ s. s;
  replace_nkey = λ s. s;
  replace_tsnet = λ s. s;
  replace_email = λ s. s;
  replace_login = λ s. s;
}

fine : Text → Outcome
fine out = record { output = out; error = none; timed_out = false; ctx_done = none }

-- Each command prints its first argument; `serve status` fails.
answer : List Text → Outcome
answer [] = fine []
answer (a ∷ rest) =
    if text_eq a (codes "serve")
    then record {
      output = [];
      error = some (codes "exit status 1");
      timed_out = false;
      ctx_done = none;
    }
    else fine a

abbrev laptop : Host
laptop = record {
  look_path = some (codes "/usr/bin/tailscale");
  over = λ args. none;
  run = λ path args. answer args;
  refusal_text = λ path args r. codes "refused";
  redactions = plain_redactions;
  matchers = plain_matchers;
}

check-IsHarmless_example : IsHarmless laptop (check laptop)
check-IsHarmless_example = check-IsHarmless laptop

all_four :
    (check laptop).0
    ≡ (codes "/usr/bin/tailscale", serve_args)
      ∷ (codes "/usr/bin/tailscale", ip_args)
      ∷ (codes "/usr/bin/tailscale", status_args)
      ∷ (codes "/usr/bin/tailscale", version_args)
      ∷ []
unfolding check checked check_at run_allowed allow equal_fold base any_refused args_allowed mem_text
    text_eq to_lower trim_space
all_four = refl

failure_warned :
    (check laptop).1.warnings ≡ codes "tailscale serve status failed: exit status 1" ∷ []
unfolding check checked check_at run_allowed allow equal_fold base any_refused args_allowed mem_text
    text_eq to_lower trim_space report_of redact_warnings redact command_warn joined contains
    has_prefix answer fine answered parse_connected first_ipv4
failure_warned = refl

login_link_hidden : redact_url (codes "https://login.tailscale.com/a/0123") ≡ redacted
unfolding redact_url contains has_prefix to_lower
login_link_hidden = refl
