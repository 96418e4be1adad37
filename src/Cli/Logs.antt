-- ===== src/Cli/Logs.antt =====
-- pkg/cli/conn.go and config.go: the deletion of old log files, on the entries of their directory.
pub mod Cleaning
use cloud_android_orchestrat.Prelude.{ap, Option-cases}
use cloud_android_orchestrat.Errors.{wrap, GoError}
use cloud_android_orchestrat.Exec.{Exec, Result, Result-cases, err, ok, panic}
use cloud_android_orchestrat.Prelude.{
  Bool, Bool-cases, List, Option, String, [], arith, false, filter, if◌then◌else◌, inl, inr, length,
  ltb, none, not, refl, some, str_eq, suc, true, ℕ, ◌&&◌, ◌*◌, ◌+◌, ◌==◌, ◌∷◌, ◌≡◌,
}

-- A directory entry: its modification time as `Info` gives it, and what `os.Remove` would return.
-- Times are in nanoseconds.
pub record LogFile : Type 0 where
  pub name : String
  pub mod_time : Result ℕ
  pub removal : Option GoError

-- `strings.HasSuffix(s, ".log")`
unfoldable pub has_log_suffix : String → Bool
has_log_suffix String.[] = false
has_log_suffix (String.◌∷◌ c s) =
    let rest = has_log_suffix s in if str_eq (String.◌∷◌ c s) ".log" then true else rest

-- The number of deleted files, the collected errors, and the files that are left.
pub record Cleaned : Type 0 where
  pub count : ℕ
  pub errors : List GoError
  pub left : List LogFile

abbrev pub keep : LogFile → Cleaned → Cleaned
keep file c = record c { left = file ∷ c.left }

abbrev keep_with : GoError → LogFile → Cleaned → Cleaned
keep_with e file c = record c { errors = e ∷ c.errors; left = file ∷ c.left }

abbrev pub removed : Option GoError → LogFile → Cleaned → Cleaned
removed none file c = record c { count = suc c.count }
removed (some e) file c = keep_with e file c

-- `now.Sub(info.ModTime()) > inactiveTime`
abbrev pub is_old : ℕ → ℕ → ℕ → Bool
is_old now inactive mod_time = ltb (mod_time + inactive) now

-- The body of the loop on an entry, before what the rest of the loop gives.
unfoldable pub clean_entry : ℕ → ℕ → LogFile → Cleaned → Cleaned
clean_entry now inactive file rest =
    if has_log_suffix file.name
    then elim file.mod_time [
      | err e ↦ keep_with e file rest
      | panic p ↦ keep file rest
      | ok mod_time ↦
          if is_old now inactive mod_time then removed file.removal file rest else keep file rest
    ]
    else keep file rest

unfoldable pub clean_entries : ℕ → ℕ → List LogFile → Cleaned
clean_entries now inactive [] = record { count = 0; errors = []; left = [] }
clean_entries now inactive (file ∷ files) =
    clean_entry now inactive file (clean_entries now inactive files)

-- `maybeCleanOldLogs` on the files of the directory, with the error of `os.ReadDir`: the number of
-- deleted files and the errors. A duration that is not positive counts as 0.
unfoldable pub maybe_clean_old_logs :
    ℕ → ℕ → Option GoError → Exec (List LogFile) (ℕ × List GoError)
maybe_clean_old_logs inactive now read_error files =
    if inactive == 0 then (ok (0, []), files) else elim read_error [
      | some e ↦ (err (wrap "Failed to read logs dir" e), files)
      | none ↦ let c = clean_entries now inactive files in (ok (c.count, c.errors), c.left)
    ]

-- `LogFilesDeleteThreshold`, for a number of days that is not negative and whose duration is below
-- 2^63 nanoseconds
unfoldable pub log_files_delete_threshold : ℕ → ℕ
log_files_delete_threshold keep_log_files_days = keep_log_files_days * 24 * 3600000000000
