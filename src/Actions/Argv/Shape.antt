-- ===== src/Actions/Argv/Shape.antt =====
-- The commands that `validateArgv` lets through, described on their own.
use lap_guard.Base.{
  ap, ◌≡◌, ◌⊎◌, inl, inr, refl, true, false, List, [], ◌∷◌, Text, text_eq→eq, contains_any, codes,
  arith,
}
use lap_guard.Config.Normalize.{is_abs, base, shell_chars}
use lap_guard.Actions.Argv.{
  is_poweroff_args, is_docker_args, docker, systemctl, poweroff, sync_name, ps_args, stop_args,
  validate_argv, valid_container_id, args_for, no_args,
}

-- The five forms of a command, by the last part of the executable's path.
pub data Form (name : Text) (args : List Text) : Type 0 where
  list_containers : base name ≡ docker → args ≡ ps_args → Form name args
  stop_container :
      (id : Text)
      → base name ≡ docker
      → args ≡ stop_args id
      → valid_container_id id ≡ true
      → Form name args
  sync_disks : base name ≡ sync_name → args ≡ [] → Form name args
  power_off_by_systemd : base name ≡ systemctl → args ≡ poweroff ∷ [] → Form name args
  power_off : base name ≡ poweroff → args ≡ [] → Form name args

no_args-nil : (args : List Text) → no_args args ≡ true → args ≡ []
no_args-nil [] h = refl
no_args-nil (a ∷ rest) h = cc

systemd-args : (args : List Text) → is_poweroff_args args ≡ true → args ≡ poweroff ∷ []
systemd-args [] h = cc
systemd-args (a ∷ []) h = ap (λ x. x ∷ []) (text_eq→eq a poweroff h)
systemd-args (a ∷ b ∷ rest) h = cc

docker-args :
    (args : List Text)
    → is_docker_args args ≡ true
    → (args ≡ ps_args) ⊎ ((id : Text) × (args ≡ stop_args id) × (valid_container_id id ≡ true))
docker-args [] h = cc
docker-args (a ∷ []) h = cc
docker-args (a ∷ b ∷ []) h =
    ground
      (arith, text_eq→eq a (codes "ps"), text_eq→eq b (codes "-q"), text_eq→eq a (codes "stop"))
docker-args (a ∷ b ∷ c ∷ rest) h = cc

docker-Form :
    (name : Text) (args : List Text)
    → base name ≡ docker
    → is_docker_args args ≡ true
    → Form name args
docker-Form name args n h = elim (docker-args args h) [
  | inl e ↦ list_containers n e
  | inr (id, e, v) ↦ stop_container id n e v
]

-- `args_for` is a choice by the name.
args_for-cases :
    (b : Text) (args : List Text)
    → args_for b args ≡ true
    → ((b ≡ systemctl) × (is_poweroff_args args ≡ true))
      ⊎ ((b ≡ docker) × (is_docker_args args ≡ true))
      ⊎ ((b ≡ sync_name) × (no_args args ≡ true))
      ⊎ ((b ≡ poweroff) × (no_args args ≡ true))
unfolding args_for
args_for-cases b args h = ground (
  arith,
  text_eq→eq b systemctl,
  text_eq→eq b docker,
  text_eq→eq b sync_name,
  text_eq→eq b poweroff,
)

args_for-Form : (name : Text) (args : List Text) → args_for (base name) args ≡ true → Form name args
args_for-Form name args h = elim (args_for-cases (base name) args h) [
  | inl (n, k) ↦ power_off_by_systemd n (systemd-args args k)
  | inr (inl (n, k)) ↦ docker-Form name args n k
  | inr (inr (inl (n, k))) ↦ sync_disks n (no_args-nil args k)
  | inr (inr (inr (n, k))) ↦ power_off n (no_args-nil args k)
]

-- A command that passes names its executable by an absolute path without a character that a shell
-- reads, and has one of the five forms.
pub validate_argv-Form :
    (name : Text) (args : List Text)
    → validate_argv name args ≡ true
    → (is_abs name ≡ true) × (contains_any name shell_chars ≡ false) × Form name args
unfolding validate_argv
validate_argv-Form name args h =
    (ground arith, ground arith, args_for-Form name args (ground arith))
