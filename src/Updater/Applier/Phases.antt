-- ===== src/Updater/Applier/Phases.antt =====
-- src/updater/runner/PortableUpdateApplier.cpp: an update whose three steps do not fail.
use zarya.Prelude.{◌≡◌, refl, sym, ◌∙◌, ap, Option, none, some, Text, if◌then◌else◌, arith}
use zarya.Updater.PlanFile.{UpdatePlan}
use zarya.Updater.Folder.{lookup, top, is_spared}
use zarya.Updater.Folder.Lookup.{or_else}
use zarya.Updater.Folder.Preserved.{is_spared-top}
use zarya.Updater.Applier.{
  no_staging, Machine, Run, UpdateFailure, StateFile, create_backup,
  remove_app_files_except_preserved, copy_staged_files, conclude, and_then, run_update, files,
}
use zarya.Updater.Applier.Steps.{
  and_then-later, backs_up_staging, removes_staging, copies_no_staging, and_then_passed,
  and_then-succeeds, and_then-noted, app-create_backup, staging-create_backup,
  state_file-create_backup, staging-removal, backup-removal, state_file-removal, lookup-removal,
  backup-copy_staged, state_file-copy_staged, lookup-copy_staged,
}

pub or_else-none : (found : Option Text) → or_else found none ≡ found
or_else-none none = refl
or_else-none (some content) = refl

module _ (run : Run) (plan : UpdatePlan) where
  unfoldable pub saved : Machine → Machine × Option UpdateFailure
  saved m = create_backup run plan m

  unfoldable pub cleared : Machine → Machine × Option UpdateFailure
  unfolding saved
  cleared m = remove_app_files_except_preserved run plan (saved m).0

  unfoldable pub copied : Machine → Machine × Option UpdateFailure
  unfolding cleared
  copied m = copy_staged_files run plan (cleared m).0

  -- None of the three steps fails.
  pub record Passes (m : Machine) : Type 0 where
    pub saves : (saved m).1 ≡ none
    pub clears : (cleared m).1 ≡ none
    pub copies : (copied m).1 ≡ none

  behind_clearing : Machine → Machine × Option UpdateFailure
  behind_clearing left = and_then (copy_staged_files run plan left) (conclude run plan)

  behind_saving : Machine → Machine × Option UpdateFailure
  unfolding behind_clearing
  behind_saving left = and_then (remove_app_files_except_preserved run plan left) behind_clearing

  pub run_update-Passes :
      (m : Machine) → Passes m → run_update run plan m ≡ conclude run plan (copied m).0
  unfolding run_update saved cleared copied behind_saving behind_clearing
  run_update-Passes m h =
      and_then_passed (saved m) behind_saving h.saves
      ∙ and_then_passed (cleared m) behind_clearing h.clears
      ∙ and_then_passed (copied m) (conclude run plan) h.copies

  pub succeeds-Passes : (m : Machine) → (run_update run plan m).1 ≡ none → Passes m
  unfolding run_update saved cleared copied behind_saving behind_clearing
  succeeds-Passes m h =
      let saves = and_then-succeeds (saved m) behind_saving h in
      let h2 = ap (λ r. r.1) (sym (and_then_passed (saved m) behind_saving saves)) ∙ h in
      let clears = and_then-succeeds (cleared m) behind_clearing h2 in
      let h3 = ap (λ r. r.1) (sym (and_then_passed (cleared m) behind_clearing clears)) ∙ h2 in
      record {
        saves = saves;
        clears = clears;
        copies = and_then-succeeds (copied m) (conclude run plan) h3;
      }

  pub noted-Passes :
      (m : Machine) (state : StateFile)
      → m.state_file ≡ none
      → (run_update run plan m).0.state_file ≡ some state
      → Passes m
  unfolding run_update saved cleared copied behind_saving behind_clearing copy_staged_files
  noted-Passes m state e h =
      let e1 = state_file-create_backup run plan m ∙ e in
      let saves = and_then-noted (saved m) behind_saving state e1 h in
      let h2 =
        ap (λ r. (r.0).state_file) (sym (and_then_passed (saved m) behind_saving saves)) ∙ h in
      let e2 = state_file-removal run plan (saved m).0 ∙ e1 in
      let clears = and_then-noted (cleared m) behind_clearing state e2 h2 in
      let h3 =
        ap (λ r. (r.0).state_file) (sym (and_then_passed (cleared m) behind_clearing clears))
        ∙ h2 in
      let e3 = state_file-copy_staged run plan (cleared m).0 ((cleared m).0).staging ∙ e2 in
      record {
        saves = saves;
        clears = clears;
        copies = and_then-noted (copied m) (conclude run plan) state e3 h3;
      }

  pub state_file-copied : (m : Machine) → ((copied m).0).state_file ≡ m.state_file
  unfolding copied copy_staged_files cleared saved
  state_file-copied m =
      state_file-copy_staged run plan (cleared m).0 ((cleared m).0).staging
      ∙ state_file-removal run plan (saved m).0
      ∙ state_file-create_backup run plan m

  pub lookup-cleared :
      (m : Machine) (path : Text)
      → (cleared m).1 ≡ none
      → lookup ((cleared m).0).app path
        ≡ (if is_spared plan.preserve_paths (top path) then lookup m.app path else none)
  unfolding saved cleared
  lookup-cleared m path h =
      lookup-removal run plan (saved m).0 path h
      ∙ ap (λ app. if is_spared plan.preserve_paths (top path) then lookup app path else none)
          (app-create_backup run plan m)

  pub staging-cleared : (m : Machine) → ((cleared m).0).staging ≡ m.staging
  unfolding saved cleared
  staging-cleared m = staging-removal run plan (saved m).0 ∙ staging-create_backup run plan m

  pub lookup-copied :
      (m : Machine) (path : Text)
      → Passes m
      → lookup ((copied m).0).app path ≡ (
          if is_spared plan.preserve_paths path
          then (if is_spared plan.preserve_paths (top path) then lookup m.app path else none)
          else lookup (files m.staging) path)
  unfolding copied copy_staged_files
  lookup-copied m path h = ground (
    arith,
    lookup-copy_staged run plan (cleared m).0 ((cleared m).0).staging path h.copies,
    staging-cleared m,
    lookup-cleared m path h.clears,
    or_else-none (lookup (files m.staging) path),
    is_spared-top plan.preserve_paths path,
  )

  pub lookup-saved :
      (m : Machine) (path : Text)
      → Passes m
      → lookup (files ((copied m).0).backup) path ≡ lookup (files ((saved m).0).backup) path
  unfolding copied copy_staged_files cleared
  lookup-saved m path h =
      ap (λ backup. lookup (files backup) path)
        (backup-copy_staged run plan (cleared m).0 ((cleared m).0).staging
          ∙ backup-removal run plan (saved m).0)

  pub finds_no_staging :
      (m : Machine)
      → m.staging ≡ none
      → (run_update run plan m).1 ≡ some no_staging
      → ((cleared m).1 ≡ none) × (run_update run plan m ≡ ((cleared m).0, some no_staging))
  unfolding run_update saved cleared behind_saving behind_clearing copy_staged_files
  finds_no_staging m absent h =
      let saves =
        and_then-later (saved m) behind_saving no_staging (backs_up_staging run plan m) h in
      let e1 = and_then_passed (saved m) behind_saving saves in
      let h2 = ap (λ r. r.1) (sym e1) ∙ h in
      let clears =
        and_then-later (cleared m) behind_clearing no_staging (removes_staging run plan (saved m).0)
          h2 in
      let e2 = and_then_passed (cleared m) behind_clearing clears in
      let e3 =
        copies_no_staging run plan (cleared m).0 ((cleared m).0).staging
          (staging-cleared m ∙ absent) in
      (clears, e1 ∙ e2 ∙ ap (λ r. and_then r (conclude run plan)) e3)
