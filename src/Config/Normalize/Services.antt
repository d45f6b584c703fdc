-- ===== src/Config/Normalize/Services.antt =====
-- The list of notification services: what `normalizeNotificationServices` keeps, it keeps again.
use lap_guard.Base.{
  ◌≡◌, refl, ap, sym, ◌∙◌, Bool, true, ◌&&◌, not, List, [], ◌∷◌, ◌++◌, reverse, Text, text_eq,
  text_eq→eq, mem_text, trim_space, to_lower, if◌then◌else◌, Bool-cases, inl, inr, arith,
}
use mathlib.Core.Path.{subst}
use mathlib.Core.List.{reverse-cons}
use lap_guard.Config.Normalize.{drain_providers, keep_services, or_ntfy, normalize_services}

-- A list that the loop can hold: known names, each once.
is_kept : List Text → Bool
is_kept [] = true
is_kept (x ∷ s) = (mem_text x drain_providers && not (mem_text x s)) && is_kept s

kept : List Text → Text → List Text
kept seen name =
    if mem_text name drain_providers && not (mem_text name seen) then name ∷ seen else seen

-- What the loop has kept after all of the list, newest first.
keep_all : List Text → List Text → List Text
keep_all seen [] = seen
keep_all seen (raw ∷ rest) = keep_all (kept seen (to_lower (trim_space raw))) rest

keep_services-keep_all : (seen l : List Text) → keep_services seen l ≡ reverse (keep_all seen l)
unfolding keep_services keep_all kept
keep_services-keep_all seen [] = refl
keep_services-keep_all seen (raw ∷ rest) =
    keep_services-keep_all (kept seen (to_lower (trim_space raw))) rest

kept-is_kept :
    (seen : List Text) (name : Text) → is_kept seen ≡ true → is_kept (kept seen name) ≡ true
unfolding kept is_kept
kept-is_kept seen name h = ground arith

keep_all-is_kept : (seen l : List Text) → is_kept seen ≡ true → is_kept (keep_all seen l) ≡ true
unfolding keep_all
keep_all-is_kept seen [] h = h
keep_all-is_kept seen (raw ∷ rest) h =
    let name = to_lower (trim_space raw) in
    keep_all-is_kept (kept seen name) rest (kept-is_kept seen name h)

-- Cleaning leaves each name of the list alone.
AllClean : List Text → Type 0
AllClean [] = Unit
AllClean (d ∷ ds) = (to_lower (trim_space d) ≡ d) × AllClean ds

mem_text-clean :
    (x : Text) (ds : List Text) → AllClean ds → mem_text x ds ≡ true → to_lower (trim_space x) ≡ x
unfolding mem_text AllClean
mem_text-clean x [] all h = cc
mem_text-clean x (d ∷ ds) (fixed, all) h = elim (Bool-cases (text_eq x d)) [
  | inl e ↦ subst (λ y. to_lower (trim_space y) ≡ y) (sym (text_eq→eq x d e)) fixed
  | inr e ↦ mem_text-clean x ds all (ground arith)
]

clean_known : (x : Text) → mem_text x drain_providers ≡ true → to_lower (trim_space x) ≡ x
unfolding drain_providers AllClean to_lower trim_space
clean_known x h = mem_text-clean x drain_providers (refl, (refl, (refl, (refl, tt)))) h

kept_new :
    (x : Text) (s : List Text) → is_kept (x ∷ s) ≡ true → kept s (to_lower (trim_space x)) ≡ x ∷ s
unfolding is_kept kept
kept_new x s h =
    let known : mem_text x drain_providers ≡ true = ground arith in
    rw (clean_known x known) ground arith

keep_all-append :
    (seen l : List Text) (x : Text)
    → keep_all seen (l ++ x ∷ []) ≡ kept (keep_all seen l) (to_lower (trim_space x))
unfolding keep_all
keep_all-append seen [] x = refl
keep_all-append seen (y ∷ l) x = keep_all-append (kept seen (to_lower (trim_space y))) l x

is_kept_tail : (x : Text) (s : List Text) → is_kept (x ∷ s) ≡ true → is_kept s ≡ true
unfolding is_kept
is_kept_tail x s h = ground arith

keep_all_again : (k : List Text) → is_kept k ≡ true → keep_all [] (reverse k) ≡ k
unfolding keep_all is_kept
keep_all_again [] h = refl
keep_all_again (x ∷ k) h =
    rw (reverse-cons x k, keep_all-append [] (reverse k) x, keep_all_again k (is_kept_tail x k h))
      (kept_new x k h)

normalize_services_kept :
    (l : List Text) → keep_services [] l ≡ l → normalize_services (or_ntfy l) ≡ or_ntfy l
unfolding normalize_services or_ntfy keep_services mem_text text_eq to_lower trim_space
    drain_providers
normalize_services_kept [] h = refl
normalize_services_kept (x ∷ l) h = ap or_ntfy h

pub normalize_services_idem :
    (l : List Text) → normalize_services (normalize_services l) ≡ normalize_services l
unfolding normalize_services is_kept
normalize_services_idem l =
    let k = keep_all [] l in
    let again : keep_services [] (reverse k) ≡ reverse k =
      keep_services-keep_all [] (reverse k)
      ∙ ap reverse (keep_all_again k (keep_all-is_kept [] l refl)) in
    let all = subst (λ m. keep_services [] m ≡ m) (sym (keep_services-keep_all [] l)) again in
    normalize_services_kept (keep_services [] l) all
