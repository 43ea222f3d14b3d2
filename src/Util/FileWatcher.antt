-- ===== src/Util/FileWatcher.antt =====
-- util/file_watcher.h: `FileWatcher`. `stat`, of the system, is a parameter: the modification time of a
-- file, or `none` where it fails. `-1` is `false`.
use selib.Prelude.{ℕ, Bool, true, false, Option, none, some, [], if◌then◌else◌, ltb, Str}

-- `FileWatcher`
pub record FileWatcher : Type 0 where
  pub file_path : Str
  pub last_ts : ℕ

-- The constructor.
unfoldable pub unwatched : FileWatcher
unwatched = record { file_path = []; last_ts = 0 }

module _ (stat : Str → Option ℕ) where
  -- `create`, where a null path is `none`.
  unfoldable pub create : Option Str → FileWatcher → Bool × FileWatcher
  create none w = (false, w)
  create (some file_path) w = elim (stat file_path) [
    | none ↦ (false, record w { file_path = file_path })
    | some mtime ↦ (true, record w { file_path = file_path; last_ts = mtime })
  ]

  unfoldable pub check_and_update_timestamp : FileWatcher → Bool × FileWatcher
  check_and_update_timestamp w = elim (stat w.file_path) [
    | none ↦ (false, w)
    | some mtime ↦
        if ltb w.last_ts mtime
        then (true, record w { last_ts = mtime })
        else (false, record w { last_ts = mtime })
  ]
