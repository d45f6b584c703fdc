-- ===== src/Notify/Limiter/Examples.antt =====
-- A limiter asked three times.
use lap_guard.Base.{ℕ, ◌≡◌, refl, pos, ◌<ℤ◌, [], ◌∷◌, List, Text, codes, text_eq}
use lap_guard.Notify.Limiter.{new_limiter, allow, lookup}
use lap_guard.Notify.Limiter.Laws.{allow_all, Spaced, allow_all-Spaced}

abbrev calls : List (ℕ × Text)
calls = (10, codes "a") ∷ (20, codes "a") ∷ (70, codes "a") ∷ []

let_through : (allow_all (codes "a") calls (new_limiter (pos 50)) []).1 ≡ 70 ∷ 10 ∷ []
unfolding allow_all allow new_limiter lookup text_eq
let_through = refl

allow_all-Spaced_example :
    let l = new_limiter (pos 50) in
    Spaced l.cooldown (allow_all (codes "a") calls l []).1 × (pos 0 <ℤ l.cooldown)
allow_all-Spaced_example = allow_all-Spaced (pos 50) (codes "a") calls
