-- ===== src/Cli/Logs/Cleaning.antt =====
-- Which log files are deleted (pkg/cli/conn.go).
use text.Mathlib.TextLemmas.{nil-append, cons-append}
use cloud_android_orchestrat.Errors.{GoError}
use cloud_android_orchestrat.Exec.{Result-cases, err, ok, panic}
use cloud_android_orchestrat.Cli.Logs.{
  Cleaned, LogFile, clean_entries, clean_entry, has_log_suffix, is_old, maybe_clean_old_logs,
}
use cloud_android_orchestrat.Prelude.{
  Bool, Bool-cases, List, Option-cases, String, [], ap, arith, false, inl, inr, length, none, refl,
  some, suc, str_eq, str_eq_iff, sym, true, ℕ, ◌&&◌, ◌+◌, ◌<>◌, ◌<◌, ◌==◌, ◌∙◌, ◌∷◌, ◌≡◌,
}

-- A file that is to be deleted, and can be: its name ends in ".log", and its last change is longer
-- ago than the given time.
pub record IsDeleted (now inactive : ℕ) (file : LogFile) : Type 0 where
  pub base : String
  pub mod_time : ℕ
  pub named : file.name ≡ base <> ".log"
  pub changed : file.mod_time ≡ ok mod_time
  pub old : mod_time + inactive < now
  pub removable : file.removal ≡ none

-- The files that are left: all but those that are deleted, in their order.
pub data Leaves (now inactive : ℕ) : List LogFile → List LogFile → Type 0 where
  no_files : Leaves now inactive [] []
  deletes :
      {file : LogFile} {files left : List LogFile}
      → IsDeleted now inactive file
      → Leaves now inactive files left
      → Leaves now inactive (file ∷ files) left
  keeps :
      {file : LogFile} {files left : List LogFile}
      → ¬ IsDeleted now inactive file
      → Leaves now inactive files left
      → Leaves now inactive (file ∷ files) (file ∷ left)

has_log_suffix_sound :
    (s : String) → has_log_suffix s ≡ true → (base : String) × (s ≡ base <> ".log")
unfolding has_log_suffix
has_log_suffix_sound String.[] e = absurd (ground arith)
has_log_suffix_sound (String.◌∷◌ c s) e = elim (Bool-cases (str_eq (String.◌∷◌ c s) ".log")) [
  | inl whole ↦ ("", (str_eq_iff (String.◌∷◌ c s) ".log").0 whole ∙ sym (nil-append ".log"))
  | inr longer ↦
      let (base, e') = has_log_suffix_sound s (ground arith) in
      (String.◌∷◌ c base, ap (String.◌∷◌ c) e' ∙ sym (cons-append c base ".log"))
]

has_log_suffix-append : (base : String) → has_log_suffix (base <> ".log") ≡ true
unfolding has_log_suffix
has_log_suffix-append String.[] = refl
has_log_suffix-append (String.◌∷◌ c base) =
    let ih = has_log_suffix-append base in
    rw (cons-append c base ".log")
      (elim (Bool-cases (str_eq (String.◌∷◌ c (base <> ".log")) ".log")) [
        | inl whole ↦ rw whole refl
        | inr longer ↦ rw longer ih
      ])

-- The test on an entry that leads to its deletion.
abbrev is_deleted : ℕ → ℕ → LogFile → Bool
is_deleted now inactive file = has_log_suffix file.name && elim file.mod_time [
  | ok mod_time ↦ is_old now inactive mod_time && elim file.removal [ none ↦ true | some e ↦ false ]
  | err e ↦ false
  | panic p ↦ false
]

clean_entry-deleted :
    (now inactive : ℕ) (file : LogFile) (rest : Cleaned)
    → is_deleted now inactive file ≡ true
    → clean_entry now inactive file rest ≡ record rest { count = suc rest.count }
unfolding clean_entry
clean_entry-deleted now inactive file rest d =
    ground (arith, Result-cases file.mod_time, Option-cases file.removal)

clean_entry-kept :
    (now inactive : ℕ) (file : LogFile) (rest : Cleaned)
    → is_deleted now inactive file ≡ false
    → ((clean_entry now inactive file rest).count ≡ rest.count)
      × ((clean_entry now inactive file rest).left ≡ file ∷ rest.left)
unfolding clean_entry
clean_entry-kept now inactive file rest d =
    ground (arith, Result-cases file.mod_time, Option-cases file.removal)

is_deleted_sound :
    (now inactive : ℕ) (file : LogFile)
    → is_deleted now inactive file ≡ true
    → IsDeleted now inactive file
is_deleted_sound now inactive file d =
    let (base, named) = has_log_suffix_sound file.name (ground arith) in
    elim (Result-cases file.mod_time) [
      | inl (t, e) ↦ record {
        base = base;
        mod_time = t;
        named = named;
        changed = e;
        old = ground arith;
        removable = ground (arith, Option-cases file.removal);
      }
      | inr (inl (x, e)) ↦ absurd (ground arith)
      | inr (inr (p, e)) ↦ absurd (ground arith)
    ]

is_deleted_complete :
    (now inactive : ℕ) (file : LogFile)
    → IsDeleted now inactive file
    → is_deleted now inactive file ≡ true
is_deleted_complete now inactive file d =
    let suffix : has_log_suffix file.name ≡ true =
      ap has_log_suffix d.named ∙ has_log_suffix-append d.base in
    let old : is_old now inactive d.mod_time ≡ true = ground (arith, d.old) in
    rw (suffix, d.changed, old, d.removable) refl

clean_entries_lem :
    (now inactive : ℕ) (files : List LogFile)
    → Leaves now inactive files (clean_entries now inactive files).left
      × ((clean_entries now inactive files).count + length (clean_entries now inactive files).left
          ≡ length files)
unfolding clean_entries
clean_entries_lem now inactive [] = (no_files, refl)
clean_entries_lem now inactive (file ∷ files) =
    let (left, count) = clean_entries_lem now inactive files in
    let rest = clean_entries now inactive files in
    elim (Bool-cases (is_deleted now inactive file)) [
      | inl d ↦
          rw (clean_entry-deleted now inactive file rest d)
            (deletes (is_deleted_sound now inactive file d) left, omega (arith, count))
      | inr d ↦
          let (c, l) = clean_entry-kept now inactive file rest d in
          let stays : ¬ IsDeleted now inactive file = (λ gone.
            let d' = is_deleted_complete now inactive file gone in absurd (ground arith)) in
          rw (c, l) (keeps stays left, omega (arith, count))
    ]

-- Where the directory of the logs can be read, cleaning it with a positive duration deletes exactly
-- the files whose names end in ".log" that were not changed for longer than that and can be removed,
-- and returns their number, whatever errors the other files have; with the duration 0 it deletes
-- nothing.
pub maybe_clean_old_logs_lem :
    (inactive now : ℕ) (files : List LogFile)
    → let left = (maybe_clean_old_logs inactive now none files).1 in
      (count : ℕ) × (errors : List GoError) × ((maybe_clean_old_logs inactive now none files).0
        ≡ ok (count, errors))
      × (inactive ≡ 0 → left ≡ files)
      × (0 < inactive → Leaves now inactive files left)
      × (count + length left ≡ length files)
unfolding maybe_clean_old_logs
maybe_clean_old_logs_lem inactive now files = elim (Bool-cases (inactive == 0)) [
  | inl never ↦ rw never (0, [], refl, (λ e. refl), (λ h. absurd (ground arith)), omega arith)
  | inr sometimes ↦
      let (left, count) = clean_entries_lem now inactive files in
      rw sometimes (
        (clean_entries now inactive files).count,
        (clean_entries now inactive files).errors,
        refl,
        (λ e. absurd (ground arith)),
        (λ h. left),
        count,
      )
]
