-- ===== src/Config/Write/Laws.antt =====
-- Every state that a reader can meet while a file is written.
use lap_guard.Base.{
  Bool, true, false, ◌⊎◌, inl, inr, text_eq→eq, Bool-cases, ◌≡◌, ◌⊎◌, inl, inr, false, none, some,
  Text, All, text_eq, text_eq_refl, arith,
}
use lap_guard.Config.Write.{
  Files, put, WriteEnv, Written, discarded, filled, committed, fill_and_rename, atomic_write_file,
}

-- The file at `path` is what it was, or all of the new contents.
abbrev IsOldOrNew : Text → Text → Files → Files → Type 0
IsOldOrNew path raw old now = (now path ≡ old path) ⊎ (now path ≡ some raw)

-- What holds of a write, whatever the operating system answers.
pub record IsAtomic (path raw temp : Text) (removed : Bool) (old : Files) (w : Written)
    : Type 0 where
  pub every : All (IsOldOrNew path raw old) w.states
  pub last : IsOldOrNew path raw old w.final
  pub done : (w.failed ≡ true) ⊎ (w.final path ≡ some raw)
  pub no_temp : (w.failed ≡ true × removed ≡ false) ⊎ (w.final temp ≡ none)
  pub others : (q : Text) → (text_eq q path ≡ true) ⊎ (text_eq q temp ≡ true) ⊎ (w.final q ≡ old q)

not-same_text : (s t : Text) → text_eq s t ≡ false → text_eq t s ≡ false
not-same_text s t h = elim (Bool-cases (text_eq t s)) [
  | inl e ↦ let r = text_eq_refl s in let q = text_eq→eq t s e in cc
  | inr e ↦ e
]

-- Wherever the operating system stops a write, a reader of the path meets the old file or all of
-- the new contents, never a part of them; a write without an error leaves the new contents; a
-- temporary file is left only by a write that failed and whose clean-up failed too; and no other
-- path changes. The temporary name is not the path's, and was not taken.
pub atomic_write_file-IsAtomic :
    (e : WriteEnv) (path raw : Text) (old : Files)
    → text_eq path e.temp ≡ false
    → old e.temp ≡ none
    → IsAtomic path raw e.temp e.removed old (atomic_write_file e path raw old)
unfolding atomic_write_file fill_and_rename discarded committed filled put
atomic_write_file-IsAtomic e path raw old h fresh =
    let k = not-same_text path e.temp h in
    let p = text_eq_refl path in
    let t = text_eq_refl e.temp in
    record {
      every = ground arith;
      last = ground arith;
      done = ground arith;
      no_temp = ground arith;
      others = λ q. ground arith;
    }
