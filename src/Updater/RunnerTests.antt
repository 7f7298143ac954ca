-- ===== src/Updater/RunnerTests.antt =====
-- Runs of src/updater/runner on a concrete plan and concrete folders.
use zarya.Prelude.{
  slashes, trimmed, ◌≡◌, refl, true, false, [], ◌∷◌, some, none, Text, codes, pos, to_lower,
  text_eq, starts_with, select, any, contains_text, if◌then◌else◌,
}
use zarya.Json.{insert, value, obj}
use zarya.Updater.Version.{compare, compare_parsed, by_then, prerelease_rank, parse}
use zarya.Updater.Planner.{linux, windows}
use zarya.Updater.PlanFile.{
  UpdatePlan, read, read_file, write_file, plan_to_json, plan_head_to_json, from_json_error,
  message, plan_error, plan_from_json, last_missing, read_string, read_string_list, keep_texts,
  check_from_json, from_native_separators,
}
use zarya.Updater.PlanFile.RoundTrip.{read_back, read_file-write_file}
use zarya.Updater.Folder.{
  lookup, top, below, is_hidden, is_spared, is_preserved, is_kept, is_kept_by, copy_tree,
  remove_path, remove_entry, has_entry, remove_entries, remove_app_files,
}
use zarya.Updater.Applier.{
  Machine, Run, UpdateFailure, version_mismatch, no_staging, apply, run_update, create_backup,
  backup_skips, files, remove_app_files_except_preserved, copy_staged_files, copy_staged_from,
  conclude, conclude_with, run_post_update_check, detected_version, find_version, version_at,
  version_behind, word, skip_blanks, is_blank, recover, rollback, remove_updated, restore_from,
  finish,
}
use zarya.Updater.Applier.Outcome.{is_uncovered, apply_succeeds, apply_finds_no_staging}

-- A plan of a portable installation on Linux.
abbrev update_plan : UpdatePlan
update_plan = record {
  format = codes "zarya-update-plan";
  format_version = pos 1;
  created_at = codes "2026-05-01T10:00:00Z";
  current_version = codes "0.36.0";
  target_version = codes "0.37.0";
  installation_mode = codes "Portable";
  platform = codes "linux";
  architecture = codes "x64";
  app_dir = codes "/opt/zarya";
  staging_dir = codes "/opt/zarya/data/staging";
  backup_dir = codes "/opt/zarya/data/backup";
  preserve_paths = codes "data" ∷ [];
  main_executable = codes "zarya";
  helper_executable = codes "zarya-helper";
  updater_executable = codes "zarya-updater";
  post_update_check = record {
    command = codes "zarya";
    args = codes "--version" ∷ [];
    expected_version = codes "0.37.0";
  };
  restart_after_update = true;
  restart_args = codes "--post-update" ∷ [];
}

update_plan_read : read_file linux (some (obj (plan_to_json linux update_plan))) ≡ read update_plan
unfolding read_file plan_to_json plan_head_to_json from_json_error message plan_error plan_from_json
    last_missing read_string read_string_list keep_texts check_from_json from_native_separators
    insert value trimmed text_eq
update_plan_read = refl

read_file-write_file_example :
    read_back linux (write_file linux (codes "now") true true update_plan) ≡ read update_plan
read_file-write_file_example =
    read_file-write_file linux (codes "now") (obj (plan_to_json linux update_plan)) update_plan
      update_plan_read

-- The directories of a plan for Windows are written with slashes.
windows_separators :
    from_native_separators windows (codes "C:\\Zarya\\data") ≡ codes "C:/Zarya/data"
unfolding from_native_separators slashes
windows_separators = refl

-- An installation with the user's settings, and a folder with a name of a preserved path in it.
abbrev machine : Machine
machine = record {
  app =
      record { path = codes "zarya"; content = codes "old" }
      ∷ record { path = codes "data/settings.json"; content = codes "mine" }
      ∷ record { path = codes "bin/data/geo.dat"; content = codes "geo" }
      ∷ record { path = codes "bin/.cache"; content = codes "cached" }
      ∷ record { path = codes ".env"; content = codes "hidden" }
      ∷ [];
  staging = some (record { path = codes "zarya"; content = codes "new" } ∷ []);
  backup = none;
  pending = true;
  state_file = none;
  critical = none;
  restarted = none;
}

-- A run in which nothing fails, and in which the new program says a version.
abbrev answers : Text → Run
answers output = record {
  exits = true;
  backup_fails = λ path. false;
  stuck = λ path. false;
  copy_fails = λ path. false;
  check = λ app. record { success = true; standard_output = output; error_message = [] };
  stuck_again = λ path. false;
  restore_fails = λ path. false;
  starts = true;
}

detects : detected_version (codes "zarya  0.37.0 (Qt 6)") ≡ codes "0.37.0"
unfolding detected_version find_version version_at version_behind word skip_blanks is_blank to_lower
    starts_with
detects = refl

succeeded : (apply (answers (codes "Zarya 0.37.0")) update_plan machine).1 ≡ none
unfolding apply run_update create_backup backup_skips remove_app_files_except_preserved
    copy_staged_files copy_staged_from conclude conclude_with run_post_update_check recover rollback
    remove_updated restore_from finish plan_error detected_version find_version version_at
    version_behind word skip_blanks is_blank compare compare_parsed by_then prerelease_rank parse
    to_lower starts_with trimmed copy_tree remove_path remove_app_files remove_entries remove_entry
    has_entry is_spared is_hidden contains_text is_preserved is_kept is_kept_by top below text_eq
    select any
succeeded = refl

apply_succeeds_example :
    lookup ((apply (answers (codes "Zarya 0.37.0")) update_plan machine).0).app (codes "zarya") ≡ (
      if is_spared update_plan.preserve_paths (codes "zarya")
      then (if is_spared update_plan.preserve_paths (top (codes "zarya"))
          then lookup machine.app (codes "zarya")
          else none)
      else lookup (files machine.staging) (codes "zarya"))
apply_succeeds_example =
    apply_succeeds (answers (codes "Zarya 0.37.0")) update_plan machine (codes "zarya") succeeded

abbrev wrong_version : UpdateFailure
wrong_version = version_mismatch (codes "0.37.0") (codes "0.36.5")

-- The folder of that name is lost by the update that was turned back.
geo_uncovered : is_uncovered update_plan (codes "bin/data/geo.dat") ≡ true
unfolding is_uncovered is_spared is_hidden contains_text is_preserved is_kept is_kept_by
    backup_skips top below text_eq starts_with
geo_uncovered = refl

-- A hidden file in a folder is removed with it and is not in the backup.
cache_uncovered : is_uncovered update_plan (codes "bin/.cache") ≡ true
unfolding is_uncovered is_spared is_hidden contains_text is_preserved is_kept is_kept_by
    backup_skips top below text_eq starts_with
cache_uncovered = refl

abbrev unstaged : Machine
unstaged = record machine { staging = none }

nothing_staged : (apply (answers []) update_plan unstaged).1 ≡ some no_staging
unfolding apply run_update create_backup backup_skips remove_app_files_except_preserved
    copy_staged_files copy_staged_from conclude conclude_with run_post_update_check recover rollback
    remove_updated restore_from finish plan_error detected_version find_version version_at
    version_behind word skip_blanks is_blank compare compare_parsed by_then prerelease_rank parse
    to_lower starts_with trimmed copy_tree remove_path remove_app_files remove_entries remove_entry
    has_entry is_spared is_hidden contains_text is_preserved is_kept is_kept_by top below text_eq
    select any
nothing_staged = refl

apply_finds_no_staging_example :
    (lookup ((apply (answers []) update_plan unstaged).0).app (codes "zarya") ≡ (
      if is_spared update_plan.preserve_paths (top (codes "zarya"))
      then lookup unstaged.app (codes "zarya")
      else none))
    × (((apply (answers []) update_plan unstaged).0).state_file ≡ unstaged.state_file)
    × (((apply (answers []) update_plan unstaged).0).restarted ≡ unstaged.restarted)
apply_finds_no_staging_example =
    apply_finds_no_staging (answers []) update_plan unstaged (codes "zarya") refl nothing_staged
