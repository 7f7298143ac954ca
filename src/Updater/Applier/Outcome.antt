-- ===== src/Updater/Applier/Outcome.antt =====
-- src/updater/runner/PortableUpdateApplier.cpp and UpdateRollback.cpp: the application's folder
-- after an update that succeeds, that is rolled back, and that finds no staging folder.
use zarya.Prelude.{
  not, ◌&&◌, ◌||◌, ◌≡◌, sym, ◌∙◌, ap, Bool, Option, none, some, Text, if◌then◌else◌, arith,
}
use zarya.Updater.PlanFile.{UpdatePlan}
use zarya.Updater.Folder.{lookup, top, is_spared}
use zarya.Updater.Applier.{
  no_staging, Machine, Run, UpdateFailure, recover, finish, conclude, conclude_with,
  run_post_update_check, run_update, apply, files, backup_skips,
}
use zarya.Updater.Applier.Steps.{
  restarted-removal, restarted-create_backup, state_file-create_backup, state_file-removal,
}
use zarya.Updater.Applier.Phases.{
  saved, cleared, copied, run_update-Passes, succeeds-Passes, lookup-cleared, lookup-copied,
  finds_no_staging,
}

module _ (run : Run) (plan : UpdatePlan) where
  app-finishes :
      (m : Machine) (failure : Option UpdateFailure)
      → (conclude_with run plan m failure).1 ≡ none
      → (conclude_with run plan m failure).0.app ≡ m.app
  unfolding conclude_with recover finish
  app-finishes m none h = ground arith
  app-finishes m (some failure) h = ground arith

  succeeds-run_update :
      (m : Machine) → (apply run plan m).1 ≡ none → apply run plan m ≡ run_update run plan m
  unfolding apply
  succeeds-run_update m h = ground arith

  fails-run_update :
      (m : Machine)
      → (apply run plan m).1 ≡ some no_staging
      → apply run plan m ≡ run_update run plan m
  unfolding apply
  fails-run_update m h = ground arith

-- After an update that succeeds the application's folder has the staged files that are neither
-- preserved nor hidden; of what was there before, the preserved and the hidden entries are left.
pub apply_succeeds :
    (run : Run) (plan : UpdatePlan) (m : Machine) (path : Text)
    → (apply run plan m).1 ≡ none
    → lookup ((apply run plan m).0).app path ≡ (
        if is_spared plan.preserve_paths path
        then (if is_spared plan.preserve_paths (top path) then lookup m.app path else none)
        else lookup (files m.staging) path)
unfolding conclude
apply_succeeds run plan m path h =
    let e = succeeds-run_update run plan m h in
    let h1 = ap (λ r. r.1) (sym e) ∙ h in
    let passes = succeeds-Passes run plan m h1 in
    let e1 = e ∙ run_update-Passes run plan m passes in
    let left = (copied run plan m).0 in
    ap (λ r. lookup (r.0).app path) e1
    ∙ ap (λ app. lookup app path)
        (app-finishes run plan left (run_post_update_check run plan left)
          (ap (λ r. r.1) (sym e1) ∙ h))
    ∙ lookup-copied run plan m path passes

-- A file whose entry is neither preserved nor hidden, though it is hidden in that entry or a
-- preserved path covers it, either from the application's folder or from that entry.
unfoldable pub is_uncovered : UpdatePlan → Text → Bool
unfolding is_spared backup_skips top
is_uncovered plan path =
    not (is_spared plan.preserve_paths (top path))
    && (is_spared plan.preserve_paths path || backup_skips plan path)

-- An update that finds no staging folder ends with every file gone that is not in a preserved or a
-- hidden entry, and neither notes its failure nor starts the previous version.
pub apply_finds_no_staging :
    (run : Run) (plan : UpdatePlan) (m : Machine) (path : Text)
    → m.staging ≡ none
    → (apply run plan m).1 ≡ some no_staging
    → (lookup ((apply run plan m).0).app path
        ≡ (if is_spared plan.preserve_paths (top path) then lookup m.app path else none))
      × (((apply run plan m).0).state_file ≡ m.state_file)
      × (((apply run plan m).0).restarted ≡ m.restarted)
unfolding saved cleared
apply_finds_no_staging run plan m path absent h =
    let e = fails-run_update run plan m h in
    let (clears, e1) = finds_no_staging run plan m absent (ap (λ r. r.1) (sym e) ∙ h) in
    let same = e ∙ e1 in
    let left = (saved run plan m).0 in
    (
      ap (λ r. lookup (r.0).app path) same ∙ lookup-cleared run plan m path clears,
      ap (λ r. (r.0).state_file) same
          ∙ state_file-removal run plan left
          ∙ state_file-create_backup run plan m,
      ap (λ r. (r.0).restarted) same
          ∙ restarted-removal run plan left
          ∙ restarted-create_backup run plan m,
    )
