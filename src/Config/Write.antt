-- ===== src/Config/Write.antt =====
-- `atomicWriteFile` of internal/config/persist.go, over a file system that is a function from paths
-- to contents. What the operating system answers to each call is a parameter.
pub mod Laws
mod Examples
use lap_guard.Base.{
  Bool, true, false, not, Option, none, some, List, [], ◌∷◌, Text, text_eq, if◌then◌else◌,
}

abbrev pub Files : Type 0
Files = Text → Option Text

unfoldable pub put : Files → Text → Option Text → Files
put files path contents q = if text_eq q path then contents else files q

-- Which of the calls succeed, the name that `CreateTemp` picks, and what a write that fails leaves.
pub record WriteEnv : Type 0 where
  pub temp : Text
  pub made_dir : Bool
  pub created : Bool
  pub mode_set : Bool
  pub wrote : Bool
  pub synced : Bool
  pub closed : Bool
  pub renamed : Bool
  pub mode_kept : Bool
  pub removed : Bool
  pub partial_write : Text → Text

-- The states of the file system in order, oldest first, and whether an error is returned.
pub record Written : Type 0 where
  pub states : List Files
  pub final : Files
  pub failed : Bool

-- The deferred clean-up, with the states that it ends. An error of `Remove` is ignored, and leaves
-- the temporary file.
discarded : WriteEnv → List Files → Files → Written
unfolding put
discarded e states files = record {
  states = states;
  final = if e.removed then put files e.temp none else files;
  failed = true;
}

-- What the temporary file holds once `Write` has returned.
unfoldable pub filled : WriteEnv → Text → Files → Files
filled e raw files = put files e.temp (some (if e.wrote then raw else e.partial_write raw))

-- `Rename`, which moves what the temporary file holds, and the change of mode after it.
committed : WriteEnv → Text → List Files → Files → Written
unfolding put
committed e path states files = record {
  states = states;
  final = put (put files e.temp none) path (files e.temp);
  failed = not e.mode_kept;
}

unfoldable pub fill_and_rename : WriteEnv → Text → Text → Files → Files → Written
unfolding discarded filled committed
fill_and_rename e path raw old opened =
    let now = filled e raw opened in
    let seen = old ∷ opened ∷ now ∷ [] in
    if not e.wrote
    then discarded e seen now
    else if not e.synced
    then discarded e seen now
    else if not e.closed
    then discarded e seen now
    else if not e.renamed
    then discarded e seen now
    else committed e path seen now

unfoldable pub atomic_write_file : WriteEnv → Text → Text → Files → Written
unfolding fill_and_rename
atomic_write_file e path raw old =
    if not e.made_dir
    then record { states = old ∷ []; final = old; failed = true }
    else if not e.created
    then record { states = old ∷ []; final = old; failed = true }
    else let opened = put old e.temp (some []) in
      if not e.mode_set
      then discarded e (old ∷ opened ∷ []) opened
      else fill_and_rename e path raw old opened
