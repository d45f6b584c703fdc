-- ===== src/Tailscale/Check/Laws.antt =====
-- What the diagnostics run and what they report.
use lap_guard.Base.{
  ◌≡◌, inl, inr, refl, true, false, Option, none, some, List, [], ◌∷◌, Text, codes, text_eq,
  trim_space, Result, ok, err, All, Any, Bool-cases,
}
use lap_guard.Config.Normalize.{base}
use lap_guard.Tailscale.{Refusal, allow, allowed_args, equal_fold}
use lap_guard.Tailscale.Allowed.{allow_lem}
use lap_guard.Tailscale.Check.{
  Host, Calls, CtxError, Report, Redactions, redact, executed, if_allowed, run_allowed,
  redact_warnings, report_of, not_installed, check_at, checked, check, version_args, status_args,
  ip_args, serve_args,
}

-- A command of the `tailscale` binary with one of the four lists of arguments.
abbrev pub IsReadOnly : Text × List Text → Type 0
IsReadOnly (path, args) =
    (equal_fold (base (trim_space path)) (codes "tailscale") ≡ true)
    × Any (λ w. args ≡ w) allowed_args

-- A text that redaction has given, and which is not empty.
abbrev pub IsRedacted : Redactions → Text → Type 0
IsRedacted r w = (s : Text) × (w ≡ redact r s) × (text_eq w [] ≡ false)

executed-IsReadOnly :
    (h : Host) (path : Text) (args : List Text) (calls : Calls) (over : Option CtxError)
    → IsReadOnly (path, args)
    → All IsReadOnly calls
    → All IsReadOnly (executed h path args calls over).0
executed-IsReadOnly h path args calls none this all = (this, all)
executed-IsReadOnly h path args calls (some e) this all = all

if_allowed-IsReadOnly :
    (h : Host) (path : Text) (args : List Text) (calls : Calls) (r : Result Refusal (Unit {0}))
    → allow path args ≡ r
    → All IsReadOnly calls
    → All IsReadOnly (if_allowed h path args calls r).0
if_allowed-IsReadOnly h path args calls (err r) e all = all
if_allowed-IsReadOnly h path args calls (ok done) e all =
    executed-IsReadOnly h path args calls (h.over args) ((allow_lem path args).0 e) all

run_allowed-IsReadOnly :
    (h : Host) (path : Text) (args : List Text) (calls : Calls)
    → All IsReadOnly calls
    → All IsReadOnly (run_allowed h path args calls).0
unfolding run_allowed
run_allowed-IsReadOnly h path args calls all =
    if_allowed-IsReadOnly h path args calls (allow path args) refl all

redact_warnings-IsRedacted :
    (r : Redactions) (l : List Text) → All (IsRedacted r) (redact_warnings r l)
unfolding redact_warnings
redact_warnings-IsRedacted r [] = tt
redact_warnings-IsRedacted r (w ∷ rest) = elim (Bool-cases (text_eq (redact r w) [])) [
  | inl e ↦ rw e (redact_warnings-IsRedacted r rest)
  | inr e ↦ rw e ((w, refl, e), redact_warnings-IsRedacted r rest)
]

check_at-IsReadOnly : (h : Host) (path : Text) → All IsReadOnly (check_at h path).0
unfolding check_at
check_at-IsReadOnly h path =
    let c1 = run_allowed h path version_args [] in
    let c2 = run_allowed h path status_args c1.0 in
    let c3 = run_allowed h path ip_args c2.0 in
    run_allowed-IsReadOnly h path serve_args c3.0 (
      run_allowed-IsReadOnly h path ip_args c2.0 (
        run_allowed-IsReadOnly h path status_args c1.0
          (run_allowed-IsReadOnly h path version_args [] tt)))

abbrev pub IsHarmless : Host → Calls × Report → Type 0
IsHarmless h (calls, report) = All IsReadOnly calls × All (IsRedacted h.redactions) report.warnings

not_installed-IsHarmless : (h : Host) → IsHarmless h ([], not_installed h)
unfolding not_installed
not_installed-IsHarmless h = (tt, redact_warnings-IsRedacted h.redactions _)

check_at-IsHarmless : (h : Host) (path : Text) → IsHarmless h (check_at h path)
unfolding check_at report_of
check_at-IsHarmless h path = (check_at-IsReadOnly h path, redact_warnings-IsRedacted h.redactions _)

checked-IsHarmless : (h : Host) (found : Option Text) → IsHarmless h (checked h found)
unfolding checked
checked-IsHarmless h none = not_installed-IsHarmless h
checked-IsHarmless h (some path) = elim (Bool-cases (text_eq (trim_space path) [])) [
  | inl e ↦ rw e (not_installed-IsHarmless h)
  | inr e ↦ rw e (check_at-IsHarmless h path)
]

-- The diagnostics run nothing but the `tailscale` binary with one of the four lists of arguments
-- that only read, and every warning of their report is a text that has been redacted.
pub check-IsHarmless : (h : Host) → IsHarmless h (check h)
unfolding check
check-IsHarmless h = checked-IsHarmless h h.look_path
