-- ===== src/Tailscale/Allowed.antt =====
-- What is allowed, without the list of refused arguments.
use lap_guard.Base.{
  ◌≡◌, refl, ◌↔◌, inl, inr, true, false, List, [], ◌∷◌, Text, codes, text_eq, text_eq→eq,
  text_eq_refl, mem_text, trim_space, to_lower, ok, Any, arith, Bool-cases,
}
use lap_guard.Config.Normalize.{base}
use lap_guard.Tailscale.{
  allowed_args, same_args, args_among, args_allowed, any_refused, allow, equal_fold,
}

same_args→eq : (a b : List Text) → same_args a b ≡ true → a ≡ b
unfolding same_args
same_args→eq [] [] h = refl
same_args→eq [] (w ∷ want) h = cc
same_args→eq (a ∷ args) [] h = cc
same_args→eq (a ∷ args) (w ∷ want) h = ground (arith, text_eq→eq a w, same_args→eq args want)

same_args_refl : (a : List Text) → same_args a a ≡ true
unfolding same_args
same_args_refl [] = refl
same_args_refl (a ∷ args) = ground (arith, text_eq_refl a, same_args_refl args)

args_among-Any :
    (args : List Text) (list : List (List Text))
    → args_among args list ≡ true
    → Any (λ w. args ≡ w) list
unfolding args_among
args_among-Any args [] h = cc
args_among-Any args (want ∷ rest) h = elim (Bool-cases (same_args args want)) [
  | inl e ↦ inl (same_args→eq args want e)
  | inr e ↦ inr (args_among-Any args rest (ground arith))
]

-- None of the allowed argument lists holds a refused argument.
abbrev IsPlain : List Text → Type 0
IsPlain args = (any_refused args ≡ false) × (args_allowed args ≡ true)

allowed-IsPlain : (args : List Text) → Any (λ w. args ≡ w) allowed_args → IsPlain args
unfolding any_refused args_allowed args_among same_args mem_text to_lower trim_space text_eq
allowed-IsPlain args (inl e) = rw e (refl, refl)
allowed-IsPlain args (inr (inl e)) = rw e (refl, refl)
allowed-IsPlain args (inr (inr (inl e))) = rw e (refl, refl)
allowed-IsPlain args (inr (inr (inr (inl e)))) = rw e (refl, refl)
allowed-IsPlain args (inr (inr (inr (inr e)))) = elim e [ ]

allow-args :
    (name : Text) (args : List Text) → allow name args ≡ ok tt → args_among args allowed_args ≡ true
unfolding allow args_allowed
allow-args name args h = ground arith

pub allow_lem :
    (name : Text) (args : List Text)
    → (allow name args ≡ ok tt) ↔ (
        (equal_fold (base (trim_space name)) (codes "tailscale") ≡ true)
        × Any (λ w. args ≡ w) allowed_args)
unfolding allow
allow_lem name args = (
  λ h. (ground arith, args_among-Any args allowed_args (allow-args name args h)),
  λ h. let (refused, listed) = allowed-IsPlain args h.1 in ground (arith, h.0, refused, listed),
)
