-- ===== src/Updater/Applier/Steps.antt =====
-- src/updater/runner/PortableUpdateApplier.cpp and UpdateRollback.cpp: what each step leaves where
-- it does not fail.
use zarya.Prelude.{◌≢◌, ◌≡◌, refl, ◌∙◌, Option, none, some, Text, if◌then◌else◌, arith}
use zarya.Updater.PlanFile.{UpdatePlan}
use zarya.Updater.Folder.{Folder, lookup, top, is_spared}
use zarya.Updater.Folder.Lookup.{or_else, lookup-copy_tree, lookup-remove_app_files}
use zarya.Updater.Applier.{
  no_staging, Machine, Run, UpdateFailure, StateFile, create_backup,
  remove_app_files_except_preserved, copy_staged_from, restore_from, remove_updated, rollback,
  and_then, files, backup_skips,
}

pub and_then_passed :
    (result : Machine × Option UpdateFailure) (next : Machine → Machine × Option UpdateFailure)
    → result.1 ≡ none
    → and_then result next ≡ next result.0
and_then_passed (m, some failure) next h = cc
and_then_passed (m, none) next h = refl

-- A step that fails ends the run with its failure.
pub and_then-succeeds :
    (result : Machine × Option UpdateFailure) (next : Machine → Machine × Option UpdateFailure)
    → (and_then result next).1 ≡ none
    → result.1 ≡ none
and_then-succeeds (m, some failure) next h = h
and_then-succeeds (m, none) next h = refl

-- A step that fails leaves the state file that it found.
pub and_then-noted :
    (result : Machine × Option UpdateFailure) (next : Machine → Machine × Option UpdateFailure)
    (state : StateFile)
    → (result.0).state_file ≡ none
    → (and_then result next).0.state_file ≡ some state
    → result.1 ≡ none
and_then-noted (m, some failure) next state e h = cc
and_then-noted (m, none) next state e h = refl

-- A failure that is not the first step's is a later one's.
pub and_then-later :
    (result : Machine × Option UpdateFailure) (next : Machine → Machine × Option UpdateFailure)
    (failure : UpdateFailure)
    → result.1 ≢ some failure
    → (and_then result next).1 ≡ some failure
    → result.1 ≡ none
and_then-later (m, some other) next failure k h = ground arith
and_then-later (m, none) next failure k h = refl

module _ (run : Run) (plan : UpdatePlan) (m : Machine) where
  pub app-create_backup : (create_backup run plan m).0.app ≡ m.app
  unfolding create_backup
  app-create_backup = ground arith

  pub staging-create_backup : (create_backup run plan m).0.staging ≡ m.staging
  unfolding create_backup
  staging-create_backup = ground arith

  pub state_file-create_backup : (create_backup run plan m).0.state_file ≡ m.state_file
  unfolding create_backup
  state_file-create_backup = ground arith

  pub lookup-create_backup :
      (path : Text)
      → (create_backup run plan m).1 ≡ none
      → lookup (files (create_backup run plan m).0.backup) path ≡ (
          if backup_skips plan path
          then lookup (files m.backup) path
          else or_else (lookup m.app path) (lookup (files m.backup) path))
  unfolding create_backup
  lookup-create_backup path h =
      ground
        (arith, lookup-copy_tree (backup_skips plan) run.backup_fails m.app (files m.backup) path)

  pub restarted-create_backup : (create_backup run plan m).0.restarted ≡ m.restarted
  unfolding create_backup
  restarted-create_backup = ground arith

  pub restarted-removal : (remove_app_files_except_preserved run plan m).0.restarted ≡ m.restarted
  unfolding remove_app_files_except_preserved
  restarted-removal = ground arith

  pub backs_up_staging : (create_backup run plan m).1 ≢ some no_staging
  unfolding create_backup
  backs_up_staging = ground arith

  pub removes_staging : (remove_app_files_except_preserved run plan m).1 ≢ some no_staging
  unfolding remove_app_files_except_preserved
  removes_staging = ground arith

  pub copies_no_staging :
      (staging : Option Folder)
      → staging ≡ none
      → copy_staged_from run plan m staging ≡ (m, some no_staging)
  unfolding copy_staged_from
  copies_no_staging none h = refl
  copies_no_staging (some staged) h = cc

  pub staging-removal : (remove_app_files_except_preserved run plan m).0.staging ≡ m.staging
  unfolding remove_app_files_except_preserved
  staging-removal = ground arith

  pub backup-removal : (remove_app_files_except_preserved run plan m).0.backup ≡ m.backup
  unfolding remove_app_files_except_preserved
  backup-removal = ground arith

  pub state_file-removal :
      (remove_app_files_except_preserved run plan m).0.state_file ≡ m.state_file
  unfolding remove_app_files_except_preserved
  state_file-removal = ground arith

  pub lookup-removal :
      (path : Text)
      → (remove_app_files_except_preserved run plan m).1 ≡ none
      → lookup (remove_app_files_except_preserved run plan m).0.app path
        ≡ (if is_spared plan.preserve_paths (top path) then lookup m.app path else none)
  unfolding remove_app_files_except_preserved
  lookup-removal path h =
      ground (arith, lookup-remove_app_files (is_spared plan.preserve_paths) run.stuck m.app path)

  pub lookup-remove_updated :
      (path : Text)
      → (remove_updated run plan m).1 ≡ none
      → lookup (remove_updated run plan m).0.app path
        ≡ (if is_spared plan.preserve_paths (top path) then lookup m.app path else none)
  unfolding remove_updated
  lookup-remove_updated path h =
      ground
        (arith, lookup-remove_app_files (is_spared plan.preserve_paths) run.stuck_again m.app path)

  pub backup-remove_updated : (remove_updated run plan m).0.backup ≡ m.backup
  unfolding remove_updated
  backup-remove_updated = ground arith

  pub backup-copy_staged :
      (staging : Option Folder) → (copy_staged_from run plan m staging).0.backup ≡ m.backup
  unfolding copy_staged_from
  backup-copy_staged none = refl
  backup-copy_staged (some staged) = ground arith

  pub state_file-copy_staged :
      (staging : Option Folder) → (copy_staged_from run plan m staging).0.state_file ≡ m.state_file
  unfolding copy_staged_from
  state_file-copy_staged none = refl
  state_file-copy_staged (some staged) = ground arith

  pub lookup-copy_staged :
      (staging : Option Folder) (path : Text)
      → (copy_staged_from run plan m staging).1 ≡ none
      → lookup (copy_staged_from run plan m staging).0.app path ≡ (
          if is_spared plan.preserve_paths path
          then lookup m.app path
          else or_else (lookup (files staging) path) (lookup m.app path))
  unfolding copy_staged_from
  lookup-copy_staged none path h = cc
  lookup-copy_staged (some staged) path h =
      ground
        (arith, lookup-copy_tree (is_spared plan.preserve_paths) run.copy_fails staged m.app path)

  pub lookup-restore :
      (backup : Option Folder) (path : Text)
      → (restore_from run plan m backup).1 ≡ none
      → lookup (restore_from run plan m backup).0.app path ≡ (
          if is_spared plan.preserve_paths path
          then lookup m.app path
          else or_else (lookup (files backup) path) (lookup m.app path))
  unfolding restore_from
  lookup-restore none path h = cc
  lookup-restore (some saved) path h =
      ground
        (arith, lookup-copy_tree (is_spared plan.preserve_paths) run.restore_fails saved m.app path)

  state_file-remove_updated : (remove_updated run plan m).0.state_file ≡ m.state_file
  unfolding remove_updated
  state_file-remove_updated = ground arith

  state_file-restore :
      (backup : Option Folder) → (restore_from run plan m backup).0.state_file ≡ m.state_file
  unfolding restore_from
  state_file-restore none = refl
  state_file-restore (some saved) = ground arith

state_file-and_then :
    (m : Machine) (result : Machine × Option UpdateFailure)
    (next : Machine → Machine × Option UpdateFailure)
    → (result.0).state_file ≡ m.state_file
    → ((left : Machine) → (next left).0.state_file ≡ left.state_file)
    → (and_then result next).0.state_file ≡ m.state_file
state_file-and_then m (left, some failure) next h k = h
state_file-and_then m (left, none) next h k = k left ∙ h

pub state_file-rollback :
    (run : Run) (plan : UpdatePlan) (m : Machine)
    → (rollback run plan m).0.state_file ≡ m.state_file
unfolding rollback
state_file-rollback run plan m =
    state_file-and_then m (remove_updated run plan m)
      (λ left. restore_from run plan left left.backup) (state_file-remove_updated run plan m)
      (λ left. state_file-restore run plan left left.backup)
