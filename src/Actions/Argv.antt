-- ===== src/Actions/Argv.antt =====
-- Which commands may be run: `validateArgv`, `validContainerID`, `parseContainerIDs` and `baseName`
-- of internal/actions/exec.go and real.go.
pub mod Shape
use lap_guard.Base.{
  ℕ, ltb, leb, ◌==◌, Bool, true, false, ◌&&◌, ◌||◌, not, Option, none, some, List, [], ◌∷◌, Text,
  codes, text_eq, len_bytes, trim_space, contains_any, mem_text, if◌then◌else◌, reverse,
}
use lap_guard.Config.Normalize.{is_abs, base, shell_chars, slash}

-- A hexadecimal digit of ASCII.
unfoldable pub is_hex_digit : ℕ → Bool
is_hex_digit c = leb b'0' c && leb c b'9' || leb b'A' c && leb c b'F' || leb b'a' c && leb c b'f'

unfoldable pub all_hex : Text → Bool
unfolding is_hex_digit
all_hex [] = true
all_hex (c ∷ s) = is_hex_digit c && all_hex s

unfoldable pub valid_container_id : Text → Bool
valid_container_id raw =
    let id = trim_space raw in
    if ltb (len_bytes id) 12 || ltb 64 (len_bytes id) then false else all_hex id

abbrev pub docker : Text
docker = codes "docker"

abbrev pub systemctl : Text
systemctl = codes "systemctl"

abbrev pub poweroff : Text
poweroff = codes "poweroff"

abbrev pub sync_name : Text
sync_name = codes "sync"

abbrev pub ps_args : List Text
ps_args = codes "ps" ∷ codes "-q" ∷ []

abbrev pub stop_args : Text → List Text
stop_args id = codes "stop" ∷ id ∷ []

abbrev pub no_args : List Text → Bool
no_args [] = true
no_args (a ∷ rest) = false

abbrev pub is_poweroff_args : List Text → Bool
is_poweroff_args (a ∷ []) = text_eq a poweroff
is_poweroff_args _ = false

abbrev pub is_docker_args : List Text → Bool
is_docker_args (a ∷ b ∷ []) =
    if text_eq a (codes "ps") && text_eq b (codes "-q")
    then true
    else text_eq a (codes "stop") && valid_container_id b
is_docker_args _ = false

-- The arguments that go with the base name of the executable.
unfoldable pub args_for : Text → List Text → Bool
args_for name args =
    if text_eq name systemctl
    then is_poweroff_args args
    else if text_eq name docker
    then is_docker_args args
    else if text_eq name sync_name
    then no_args args
    else text_eq name poweroff && no_args args

-- The last loop: no argument is a shell's flag or holds a character that a shell reads.
unfoldable pub plain_args : List Text → Bool
plain_args [] = true
plain_args (a ∷ rest) =
    not (text_eq a (codes "-c") || text_eq a (codes "/c") || contains_any a shell_chars)
    && plain_args rest

abbrev blank_chars : Text
blank_chars = 32 ∷ 9 ∷ []

-- `validateArgv`; `false` is ErrUnsafeArgs.
unfoldable pub validate_argv : Text → List Text → Bool
validate_argv name args =
    if text_eq name [] || not (is_abs name)
    then false
    else if contains_any name shell_chars || contains_any name blank_chars
    then false
    else if not (args_for (base name) args)
    then false
    else plain_args args

-- The lines of a text: `strings.Split(s, "\n")`.
split_at : Text → Text → List Text
split_at line [] = reverse line ∷ []
split_at line (c ∷ s) =
    let same = split_at (c ∷ line) s in
    let fresh = split_at [] s in if c == 10 then reverse line ∷ fresh else same

unfoldable pub lines : Text → List Text
unfolding split_at
lines s = split_at [] s

-- The loop of `parseContainerIDs`.
unfoldable pub keep_ids : List Text → List Text
keep_ids [] = []
keep_ids (line ∷ rest) =
    let id = trim_space line in
    let others = keep_ids rest in
    if text_eq id [] then others else if not (valid_container_id id) then others else id ∷ others

unfoldable pub parse_container_ids : Text → List Text
unfolding keep_ids lines
parse_container_ids out = keep_ids (lines out)

-- `baseName`: what follows the last slash.
last_part : Text → Text
last_part [] = []
last_part (c ∷ s) = let rest = last_part s in if c == slash then [] else c ∷ rest

unfoldable pub base_name : Text → Text
unfolding last_part
base_name path = reverse (last_part (reverse path))
