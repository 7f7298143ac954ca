-- ===== src/Updater/Applier.antt =====
-- src/updater/runner/PortableUpdateApplier.cpp and UpdateRollback.cpp: what the updater program does
-- with a plan.
pub mod Preserving
pub mod Steps
pub mod Phases
pub mod Outcome
use zarya.Prelude.{
  ℕ, Bool, true, false, not, ◌&&◌, ◌||◌, List, [], ◌∷◌, drop, Option, none, some, Text, codes,
  trimmed, to_lower, starts_with, is_empty, ◌==◌, leb, eqb_ℤ, pos, if◌then◌else◌,
}
use zarya.Updater.Version.{compare}
use zarya.Updater.PlanFile.{UpdatePlan, UpdatePlanError, plan_error}
use zarya.Updater.Folder.{Folder, top, below, is_spared, copy_tree, remove_app_files}

-- \s of a QRegularExpression without UseUnicodeProperties.
unfoldable pub is_blank : ℕ → Bool
is_blank c = (leb 9 c && leb c 13) || c == 32

unfoldable pub word : Text → Text
unfolding is_blank
word [] = []
word (c ∷ s) = let rest = c ∷ word s in if is_blank c then [] else rest

unfoldable pub skip_blanks : Text → Text
unfolding is_blank
skip_blanks [] = []
skip_blanks (c ∷ s) = let rest = skip_blanks s in if is_blank c then rest else c ∷ s

-- Zarya\s+(\S+) at the start of a text: a blank, more blanks, and a word up to the next blank.
unfoldable pub version_behind : Text → Option Text
unfolding is_blank word skip_blanks
version_behind [] = none
version_behind (c ∷ s) =
    if is_blank c && not (is_empty (word (skip_blanks s)))
    then some (word (skip_blanks s))
    else none

unfoldable pub version_at : Text → Option Text
unfolding version_behind starts_with to_lower
version_at s = if starts_with (to_lower s) (codes "zarya") then version_behind (drop 5 s) else none

unfoldable pub find_version : Text → Option Text
unfolding version_at
find_version [] = none
find_version (c ∷ s) = elim (version_at (c ∷ s)) [
  | some version ↦ some version
  | none ↦ find_version s
]

-- The version in the output of the new program.
unfoldable pub detected_version : Text → Text
unfolding find_version trimmed
detected_version output = elim (find_version output) [
  | some version ↦ version
  | none ↦ trimmed output
]

pub record ProcessResult : Type 0 where
  pub success : Bool
  pub standard_output : Text
  pub error_message : Text

-- The texts of *errorMessage.
pub data UpdateFailure : Type 0 where
  invalid : UpdatePlanError → UpdateFailure
  backup_failed removal_failed process_failed rollback_removal_failed : Text → UpdateFailure
  version_mismatch : Text → Text → UpdateFailure
  timed_out no_staging staged_copy_failed check_failed backup_missing restore_failed not_restarted :
      UpdateFailure

pub data Restart : Type 0 where
  restarted_new restarted_previous : Restart

pub data StateFile : Type 0 where
  update_success : StateFile
  update_failed : UpdateFailure → StateFile

-- What the updater works on: the three folders of the plan, `none` where one does not exist (the
-- staging and the backup folder lie outside of the application's, or in a preserved entry of it),
-- the file of the pending update, update-success.json or update-failed.json,
-- update-critical-failure.txt, and the program that was started.
pub record Machine : Type 0 where
  pub app : Folder
  pub staging : Option Folder
  pub backup : Option Folder
  pub pending : Bool
  pub state_file : Option StateFile
  pub critical : Option UpdateFailure
  pub restarted : Option Restart

-- What a run meets: whether the application ends in time, at which paths a copy fails in each of
-- the three copies, which files cannot be removed in each of the two removals, what the program in
-- the application's folder answers to the check, and whether a program can be started.
pub record Run : Type 0 where
  pub exits : Bool
  pub backup_fails : Text → Bool
  pub stuck : Text → Bool
  pub copy_fails : Text → Bool
  pub check : Folder → ProcessResult
  pub stuck_again : Text → Bool
  pub restore_fails : Text → Bool
  pub starts : Bool

abbrev pub files : Option Folder → Folder
files none = []
files (some folder) = folder

-- What createBackup does not copy: the preserved and the hidden entries, and in the other folders
-- what is hidden there or what a preserved path names below that folder.
unfoldable pub backup_skips : UpdatePlan → Text → Bool
unfolding is_spared top below
backup_skips plan path =
    is_spared plan.preserve_paths (top path)
    || elim (below path) [ none ↦ false | some rest ↦ is_spared plan.preserve_paths rest ]

unfoldable pub create_backup : Run → UpdatePlan → Machine → Machine × Option UpdateFailure
unfolding copy_tree backup_skips top
create_backup run plan m =
    let copied = copy_tree (backup_skips plan) run.backup_fails m.app (files m.backup) in
    let left = record m { backup = some copied.0 } in
    elim copied.1 [ none ↦ (left, none) | some path ↦ (left, some (backup_failed (top path))) ]

unfoldable pub remove_app_files_except_preserved :
    Run → UpdatePlan → Machine → Machine × Option UpdateFailure
unfolding remove_app_files is_spared
remove_app_files_except_preserved run plan m =
    let removed = remove_app_files (is_spared plan.preserve_paths) run.stuck m.app in
    let left = record m { app = removed.0 } in
    elim removed.1 [ none ↦ (left, none) | some entry ↦ (left, some (removal_failed entry)) ]

-- copyStagedFiles behind its look at the staging folder.
unfoldable pub copy_staged_from :
    Run → UpdatePlan → Machine → Option Folder → Machine × Option UpdateFailure
unfolding copy_tree is_spared
copy_staged_from run plan m none = (m, some no_staging)
copy_staged_from run plan m (some staged) =
    let copied = copy_tree (is_spared plan.preserve_paths) run.copy_fails staged m.app in
    let left = record m { app = copied.0 } in
    elim copied.1 [ none ↦ (left, none) | some path ↦ (left, some staged_copy_failed) ]

unfoldable pub copy_staged_files : Run → UpdatePlan → Machine → Machine × Option UpdateFailure
unfolding copy_staged_from
copy_staged_files run plan m = copy_staged_from run plan m m.staging

unfoldable pub run_post_update_check : Run → UpdatePlan → Machine → Option UpdateFailure
unfolding detected_version compare
run_post_update_check run plan m =
    let result = run.check m.app in
    let found = detected_version result.standard_output in
    let expected = plan.post_update_check.expected_version in
    if not result.success
    then (if is_empty result.error_message
        then some check_failed
        else some (process_failed result.error_message))
    else if not (eqb_ℤ (compare found expected) (pos 0))
    then some (version_mismatch expected found)
    else none

-- UpdateRollback::rollback behind its removals, from the look at the backup folder.
unfoldable pub restore_from :
    Run → UpdatePlan → Machine → Option Folder → Machine × Option UpdateFailure
unfolding copy_tree is_spared
restore_from run plan m none = (m, some backup_missing)
restore_from run plan m (some saved) =
    let copied = copy_tree (is_spared plan.preserve_paths) run.restore_fails saved m.app in
    let left = record m { app = copied.0 } in
    elim copied.1 [ none ↦ (left, none) | some path ↦ (left, some restore_failed) ]

-- The removals of UpdateRollback::rollback.
unfoldable pub remove_updated : Run → UpdatePlan → Machine → Machine × Option UpdateFailure
unfolding remove_app_files is_spared
remove_updated run plan m =
    let removed = remove_app_files (is_spared plan.preserve_paths) run.stuck_again m.app in
    let left = record m { app = removed.0 } in
    elim removed.1 [
      | none ↦ (left, none)
      | some entry ↦ (left, some (rollback_removal_failed entry))
    ]

-- `if (!step(…)) return false;`
abbrev pub and_then :
    Machine × Option UpdateFailure
    → (Machine → Machine × Option UpdateFailure)
    → Machine × Option UpdateFailure
and_then (m, some failure) next = (m, some failure)
and_then (m, none) next = next m

-- UpdateRollback::rollback.
unfoldable pub rollback : Run → UpdatePlan → Machine → Machine × Option UpdateFailure
unfolding remove_updated restore_from
rollback run plan m =
    and_then (remove_updated run plan m) (λ left. restore_from run plan left left.backup)

-- The block of apply for a check that fails. The previous version is started without a look at
-- whether that works.
unfoldable pub recover : Run → UpdatePlan → UpdateFailure → Machine → Machine × Option UpdateFailure
unfolding rollback
recover run plan failure m =
    let rolled = rollback run plan m in
    elim rolled.1 [
      | some worse ↦ (record (rolled.0) { critical = some worse }, some worse)
      | none ↦
          let noted = record (rolled.0) { state_file = some (update_failed failure) } in
          if run.starts
          then (record noted { restarted = some restarted_previous }, some failure)
          else (noted, some failure)
    ]

-- The end of apply behind a check that passes, with restartApplication.
unfoldable pub finish : Run → UpdatePlan → Machine → Machine × Option UpdateFailure
finish run plan m =
    let done = record m { state_file = some update_success; pending = false } in
    if not plan.restart_after_update
    then (done, none)
    else if run.starts
    then (record done { restarted = some restarted_new }, none)
    else (done, some not_restarted)

unfoldable pub conclude_with :
    Run → UpdatePlan → Machine → Option UpdateFailure → Machine × Option UpdateFailure
unfolding recover finish
conclude_with run plan m (some failure) = recover run plan failure m
conclude_with run plan m none = finish run plan m

-- apply behind its three steps.
unfoldable pub conclude : Run → UpdatePlan → Machine → Machine × Option UpdateFailure
unfolding run_post_update_check conclude_with
conclude run plan m = conclude_with run plan m (run_post_update_check run plan m)

-- The three steps of apply and what is behind them.
unfoldable pub run_update : Run → UpdatePlan → Machine → Machine × Option UpdateFailure
unfolding create_backup remove_app_files_except_preserved copy_staged_files conclude
run_update run plan m = and_then (create_backup run plan m) (λ saved.
    and_then (remove_app_files_except_preserved run plan saved)
      (λ cleared. and_then (copy_staged_files run plan cleared) (conclude run plan)))

unfoldable pub apply : Run → UpdatePlan → Machine → Machine × Option UpdateFailure
unfolding plan_error run_update
apply run plan m = elim (plan_error plan) [
  | some error ↦ (m, some (invalid error))
  | none ↦ if not run.exits then (m, some timed_out) else run_update run plan m
]
