-- ===== src/Config/Auth/Examples.antt =====
-- Tokens under a small stand-in for the digest: it tells one text from all others.
use lap_guard.Base.{◌≡◌, refl, Bool, true, false, [], Text, codes, text_eq, trim_space}
use lap_guard.Config.Auth.Laws.{IsDigest}

abbrev token : Text
token = codes "lg_a"

abbrev digit : Bool → Text
digit true = codes "1"
digit false = codes "0"

abbrev tells : Text → Text
tells t = digit (text_eq t token)

digit-trimmed : (b : Bool) → trim_space (digit b) ≡ digit b
unfolding trim_space
digit-trimmed true = refl
digit-trimmed false = refl

digit-filled : (b : Bool) → text_eq (digit b) [] ≡ false
unfolding text_eq
digit-filled true = refl
digit-filled false = refl

tells-IsDigest : IsDigest tells
tells-IsDigest = record {
  trimmed = λ t. digit-trimmed (text_eq t token);
  filled = λ t. digit-filled (text_eq t token);
}

old-filled : text_eq (trim_space (codes "lg_old")) [] ≡ false
unfolding text_eq trim_space
old-filled = refl
