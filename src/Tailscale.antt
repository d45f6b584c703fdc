-- ===== src/Tailscale.antt =====
-- Which commands the Tailscale diagnostics may run: internal/tailscale/allow.go.
pub mod Allowed
pub mod Check
mod Examples
use lap_guard.Base.{
  ℕ, ◌==◌, lower, Bool, true, false, ◌&&◌, ◌||◌, not, List, [], ◌∷◌, Text, codes, text_eq, mem_text,
  trim_space, to_lower, Result, ok, err, if◌then◌else◌,
}
use lap_guard.Config.Normalize.{base}

-- `strings.EqualFold`: a long s folds to s, and the sign of Kelvin to k; other letters outside ASCII
-- fold to no ASCII letter.
unfoldable pub fold : ℕ → ℕ
fold c = if c == 0x17f then b's' else if c == 0x212a then b'k' else lower c

unfoldable pub equal_fold : Text → Text → Bool
unfolding fold
equal_fold [] [] = true
equal_fold [] (d ∷ t) = false
equal_fold (c ∷ s) [] = false
equal_fold (c ∷ s) (d ∷ t) = fold c == fold d && equal_fold s t

pub data Refusal : Type 0 where
  other_binary refused_argument not_in_allow_list : Refusal

-- `allowedArgs`
abbrev pub allowed_args : List (List Text)
allowed_args =
    (codes "status" ∷ [])
    ∷ (codes "ip" ∷ codes "-4" ∷ [])
    ∷ (codes "serve" ∷ codes "status" ∷ [])
    ∷ (codes "version" ∷ [])
    ∷ []

abbrev pub refused_args : List Text
refused_args =
    codes "sudo"
    ∷ codes "funnel"
    ∷ codes "up"
    ∷ codes "down"
    ∷ codes "--bg"
    ∷ codes "login"
    ∷ codes "logout"
    ∷ codes "reset"
    ∷ codes "set"
    ∷ []

-- The loop over one entry of the list: the same length, and every argument the same.
unfoldable pub same_args : List Text → List Text → Bool
same_args [] [] = true
same_args [] (w ∷ want) = false
same_args (a ∷ args) [] = false
same_args (a ∷ args) (w ∷ want) = text_eq a w && same_args args want

unfoldable pub args_among : List Text → List (List Text) → Bool
unfolding same_args
args_among args [] = false
args_among args (want ∷ rest) = same_args args want || args_among args rest

-- `argsAllowed`
unfoldable pub args_allowed : List Text → Bool
unfolding args_among
args_allowed args = args_among args allowed_args

unfoldable pub any_refused : List Text → Bool
any_refused [] = false
any_refused (a ∷ args) = mem_text (to_lower (trim_space a)) refused_args || any_refused args

unfoldable pub allow : Text → List Text → Result Refusal (Unit {0})
unfolding any_refused args_allowed equal_fold
allow name args =
    if not (equal_fold (base (trim_space name)) (codes "tailscale"))
    then err other_binary
    else if any_refused args
    then err refused_argument
    else if not (args_allowed args)
    then err not_in_allow_list
    else ok tt
