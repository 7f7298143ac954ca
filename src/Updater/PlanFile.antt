-- ===== src/Updater/PlanFile.antt =====
-- src/updater/runner/UpdatePlanFile.cpp: the plan that the application leaves for the updater.
pub mod Rereading
pub mod RoundTrip
use zarya.Prelude.{
  ℕ, Bool, true, false, not, ◌&&◌, ◌||◌, List, [], ◌∷◌, map, Option, none, some, Text, codes,
  text_eq, trimmed, slashes, is_empty, ℤ, pos, eqb_ℤ, if◌then◌else◌,
}
use zarya.Json.{
  Json, bool, num, str, arr, obj, Fields, end, value, insert, to_string, to_string_or, to_int_or,
  to_bool_or, to_object, to_array, of_list,
}
use zarya.Updater.Planner.{Target, windows}

pub record UpdatePlanPostUpdateCheck : Type 0 where
  pub command : Text
  pub args : List Text
  pub expected_version : Text

pub record UpdatePlan : Type 0 where
  pub format : Text
  pub format_version : ℤ
  pub created_at : Text
  pub current_version : Text
  pub target_version : Text
  pub installation_mode : Text
  pub platform : Text
  pub architecture : Text
  pub app_dir : Text
  pub staging_dir : Text
  pub backup_dir : Text
  pub preserve_paths : List Text
  pub main_executable : Text
  pub helper_executable : Text
  pub updater_executable : Text
  pub post_update_check : UpdatePlanPostUpdateCheck
  pub restart_after_update : Bool
  pub restart_args : List Text

-- The texts of *errorMessage.
pub data UpdatePlanError : Type 0 where
  missing_field : Text → UpdatePlanError
  unsupported_format missing_version_metadata not_portable missing_directories missing_executables
        missing_check unreadable not_json unwritable no_bytes_written :
      UpdatePlanError

-- `isValid`: `none` where it returns true.
unfoldable pub plan_error : UpdatePlan → Option UpdatePlanError
unfolding text_eq
plan_error plan =
    if not (text_eq plan.format (codes "zarya-update-plan"))
      || not (eqb_ℤ plan.format_version (pos 1))
    then some unsupported_format
    else if is_empty plan.created_at
        || is_empty plan.current_version
        || is_empty plan.target_version
    then some missing_version_metadata
    else if not (text_eq plan.installation_mode (codes "Portable"))
    then some not_portable
    else if is_empty plan.app_dir || is_empty plan.staging_dir || is_empty plan.backup_dir
    then some missing_directories
    else if is_empty plan.main_executable
        || is_empty plan.helper_executable
        || is_empty plan.updater_executable
    then some missing_executables
    else if is_empty plan.post_update_check.command
        || is_empty plan.post_update_check.expected_version
    then some missing_check
    else none

-- QDir::fromNativeSeparators.
unfoldable pub from_native_separators : Target → Text → Text
unfolding slashes
from_native_separators windows path = slashes path
from_native_separators _ path = path

abbrev pub text_array : List Text → Json
text_array texts = arr (of_list (map str texts))

-- The fields that `toJson` writes up to the directories.
unfoldable pub plan_head_to_json : Target → UpdatePlan → Fields
unfolding insert from_native_separators
plan_head_to_json target plan =
    insert (codes "backupDir") (str (from_native_separators target plan.backup_dir)) (
      insert (codes "stagingDir") (str (from_native_separators target plan.staging_dir)) (
        insert (codes "appDir") (str (from_native_separators target plan.app_dir)) (
          insert (codes "architecture") (str plan.architecture) (
            insert (codes "platform") (str plan.platform) (
              insert (codes "installationMode") (str plan.installation_mode) (
                insert (codes "targetVersion") (str plan.target_version) (
                  insert (codes "currentVersion") (str plan.current_version) (
                    insert (codes "createdAt") (str plan.created_at) (
                      insert (codes "formatVersion") (num plan.format_version)
                        (insert (codes "format") (str plan.format) end))))))))))

unfoldable pub plan_to_json : Target → UpdatePlan → Fields
unfolding insert plan_head_to_json
plan_to_json target plan =
    let check = plan.post_update_check in
    insert (codes "restartArgs") (text_array plan.restart_args) (
      insert (codes "restartAfterUpdate") (bool plan.restart_after_update) (
        insert (codes "postUpdateCheck")
          (obj (
            insert (codes "expectedVersion") (str check.expected_version) (
              insert (codes "args") (text_array check.args)
                (insert (codes "command") (str check.command) end))))
          (insert (codes "updaterExecutable") (str plan.updater_executable) (
            insert (codes "helperExecutable") (str plan.helper_executable) (
              insert (codes "mainExecutable") (str plan.main_executable) (
                insert (codes "preservePaths") (text_array plan.preserve_paths)
                  (plan_head_to_json target plan)))))))

-- `readRequiredString` without its message.
unfoldable pub read_string : Fields → Text → Text
unfolding value trimmed
read_string object key = trimmed (to_string (value object key))

-- The message that `readRequiredString` leaves: each missing field writes over the one before.
unfoldable pub last_missing : Fields → List Text → Option Text
unfolding read_string
last_missing object [] = none
last_missing object (key ∷ keys) = elim (last_missing object keys) [
  | some later ↦ some later
  | none ↦ if is_empty (read_string object key) then some key else none
]

-- The loop of `readStringList`.
unfoldable pub keep_texts : List Json → List Text
unfolding trimmed
keep_texts [] = []
keep_texts (v ∷ vs) =
    let text = trimmed (to_string v) in
    let rest = keep_texts vs in if is_empty text then rest else text ∷ rest

unfoldable pub read_string_list : Fields → Text → List Text
unfolding value keep_texts
read_string_list object key = keep_texts (to_array (value object key))

-- What `fromJson` puts for an empty list.
abbrev pub or_default : List Text → List Text → List Text
or_default [] default = default
or_default (text ∷ texts) default = text ∷ texts

unfoldable pub default_preserve_paths : List Text
default_preserve_paths = codes "data" ∷ codes "runtime" ∷ codes "portable.flag" ∷ codes "cores" ∷ []

unfoldable pub default_restart_args : List Text
default_restart_args = codes "--post-update" ∷ []

unfoldable pub check_from_json : Fields → UpdatePlanPostUpdateCheck
unfolding value read_string_list
check_from_json check = record {
  command = to_string (value check (codes "command"));
  args = read_string_list check (codes "args");
  expected_version = to_string (value check (codes "expectedVersion"));
}

unfoldable pub plan_from_json : Target → Fields → UpdatePlan
unfolding value read_string read_string_list check_from_json from_native_separators
    default_preserve_paths default_restart_args
plan_from_json target object = record {
  format = to_string_or (value object (codes "format")) (codes "zarya-update-plan");
  format_version = to_int_or (value object (codes "formatVersion")) (pos 1);
  created_at = read_string object (codes "createdAt");
  current_version = read_string object (codes "currentVersion");
  target_version = read_string object (codes "targetVersion");
  installation_mode = read_string object (codes "installationMode");
  platform = to_string (value object (codes "platform"));
  architecture = to_string (value object (codes "architecture"));
  app_dir = from_native_separators target (read_string object (codes "appDir"));
  staging_dir = from_native_separators target (read_string object (codes "stagingDir"));
  backup_dir = from_native_separators target (read_string object (codes "backupDir"));
  preserve_paths =
      or_default (read_string_list object (codes "preservePaths")) default_preserve_paths;
  main_executable = read_string object (codes "mainExecutable");
  helper_executable = read_string object (codes "helperExecutable");
  updater_executable = read_string object (codes "updaterExecutable");
  post_update_check = check_from_json (to_object (value object (codes "postUpdateCheck")));
  restart_after_update = to_bool_or (value object (codes "restartAfterUpdate")) true;
  restart_args = or_default (read_string_list object (codes "restartArgs")) default_restart_args;
}

-- The keys of the required fields, in the order in which `fromJson` reads them.
abbrev pub required_keys : List Text
required_keys =
    codes "createdAt"
    ∷ codes "currentVersion"
    ∷ codes "targetVersion"
    ∷ codes "installationMode"
    ∷ codes "appDir"
    ∷ codes "stagingDir"
    ∷ codes "backupDir"
    ∷ codes "mainExecutable"
    ∷ codes "helperExecutable"
    ∷ codes "updaterExecutable"
    ∷ []

-- The end of `fromJson`: a missing field is reported before what `isValid` says.
unfoldable pub message : Option Text → UpdatePlan → Option UpdatePlanError
unfolding plan_error
message (some key) plan = some (missing_field key)
message none plan = plan_error plan

-- The message with which `fromJson` returns.
unfoldable pub from_json_error : Target → Fields → Option UpdatePlanError
unfolding last_missing message plan_from_json
from_json_error target object =
    message (last_missing object required_keys) (plan_from_json target object)

pub data Reading : Type 0 where
  unread : UpdatePlanError → Reading
  read : UpdatePlan → Reading

abbrev pub reading : Option UpdatePlanError → UpdatePlan → Reading
reading (some error) plan = unread error
reading none plan = read plan

-- `readFile`, from what QJsonDocument makes of the bytes, or `none` where the file cannot be
-- opened. Its own call of `isValid` repeats the last step of `fromJson`.
unfoldable pub read_file : Target → Option Json → Reading
unfolding from_json_error plan_from_json
read_file target none = unread unreadable
read_file target (some (obj object)) =
    reading (from_json_error target object) (plan_from_json target object)
read_file target (some _) = unread not_json

pub data Writing : Type 0 where
  unwritten : UpdatePlanError → Writing
  written : Json → Writing

-- The time that `writeFile` fills in.
unfoldable pub with_time : Text → UpdatePlan → UpdatePlan
with_time now plan = if is_empty plan.created_at then record plan { created_at = now } else plan

-- `writeFile` behind its validation: `opens` and `writes` say whether the file can be opened and
-- takes the bytes.
abbrev pub writing : Bool → Bool → Fields → Option UpdatePlanError → Writing
writing opens writes object (some error) = unwritten error
writing opens writes object none =
    if not opens
    then unwritten unwritable
    else if not writes
    then unwritten no_bytes_written
    else written (obj object)

unfoldable pub write_file : Target → Text → Bool → Bool → UpdatePlan → Writing
unfolding with_time plan_error plan_to_json
write_file target now opens writes plan =
    let validated = with_time now plan in
    writing opens writes (plan_to_json target validated) (plan_error validated)
