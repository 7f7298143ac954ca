-- ===== src/Updater/PlanFile/Rereading.antt =====
-- src/updater/runner/UpdatePlanFile.cpp: the fields of a plan and the missing ones, read from what is
-- written of it.
use zarya.Prelude.{
  ◌≡◌, refl, ap, ◌∙◌, List, [], ◌∷◌, map, Text, codes, trimmed, trimmed_idem, slashes_idem,
  trimmed-slashes, is_empty, is_empty-slashes, All, pos, arith,
}
use zarya.Json.{
  Json, str, num, to_int_or, to_int_or_idem, Fields, value, insert, to_array, items-of_list,
  to_string,
}
use zarya.Updater.Planner.{Target, windows, macos, linux, other}
use zarya.Updater.PlanFile.{
  UpdatePlan, from_native_separators, plan_head_to_json, plan_to_json, read_string, last_missing,
  keep_texts, read_string_list, or_default, default_preserve_paths, default_restart_args,
  check_from_json, plan_from_json, required_keys,
}

-- Reading back a list that was read gives the list.
keep_texts_idem : (vs : List Json) → keep_texts (map str (keep_texts vs)) ≡ keep_texts vs
unfolding keep_texts
keep_texts_idem [] = refl
keep_texts_idem (v ∷ vs) = ground (arith, trimmed_idem (to_string v), keep_texts_idem vs)

or_default_same : (default : List Text) → or_default default default ≡ default
or_default_same [] = refl
or_default_same (text ∷ texts) = refl

-- The same for a list with a default that is itself read back unchanged.
keep_texts-or_default :
    (texts default : List Text)
    → keep_texts (map str texts) ≡ texts
    → keep_texts (map str default) ≡ default
    → or_default (keep_texts (map str (or_default texts default))) default
      ≡ or_default texts default
keep_texts-or_default [] default h same =
    ap (λ texts. or_default texts default) same ∙ or_default_same default
keep_texts-or_default (text ∷ texts) default h same = ap (λ texts. or_default texts default) h

from_native-trimmed :
    (target : Target) (text : Text)
    → from_native_separators target
        (trimmed (from_native_separators target (from_native_separators target (trimmed text))))
      ≡ from_native_separators target (trimmed text)
unfolding from_native_separators
from_native-trimmed windows text = rw (
  slashes_idem (trimmed text),
  trimmed-slashes (trimmed text),
  trimmed_idem text,
  slashes_idem (trimmed text),
)
from_native-trimmed macos text = trimmed_idem text
from_native-trimmed linux text = trimmed_idem text
from_native-trimmed other text = trimmed_idem text

-- What the written fields are read back as.
reread : Target → UpdatePlan → UpdatePlan
unfolding keep_texts from_native_separators default_preserve_paths default_restart_args
reread target plan = record plan {
  format_version = to_int_or (num plan.format_version) (pos 1);
  created_at = trimmed plan.created_at;
  current_version = trimmed plan.current_version;
  target_version = trimmed plan.target_version;
  installation_mode = trimmed plan.installation_mode;
  app_dir = from_native_separators target (trimmed (from_native_separators target plan.app_dir));
  staging_dir =
      from_native_separators target (trimmed (from_native_separators target plan.staging_dir));
  backup_dir =
      from_native_separators target (trimmed (from_native_separators target plan.backup_dir));
  preserve_paths = or_default (keep_texts (map str plan.preserve_paths)) default_preserve_paths;
  main_executable = trimmed plan.main_executable;
  helper_executable = trimmed plan.helper_executable;
  updater_executable = trimmed plan.updater_executable;
  post_update_check = record plan.post_update_check {
    args = keep_texts (map str plan.post_update_check.args);
  };
  restart_args = or_default (keep_texts (map str plan.restart_args)) default_restart_args;
}

plan_from_json-plan_to_json :
    (target : Target) (plan : UpdatePlan)
    → plan_from_json target (plan_to_json target plan) ≡ reread target plan
unfolding plan_from_json plan_to_json plan_head_to_json reread insert value read_string
    read_string_list check_from_json
plan_from_json-plan_to_json target plan = rw (
  items-of_list (map str plan.preserve_paths),
  items-of_list (map str plan.post_update_check.args),
  items-of_list (map str plan.restart_args),
)

default_preserve_paths_kept : keep_texts (map str default_preserve_paths) ≡ default_preserve_paths
unfolding keep_texts trimmed default_preserve_paths
default_preserve_paths_kept = refl

default_restart_args_kept : keep_texts (map str default_restart_args) ≡ default_restart_args
unfolding keep_texts trimmed default_restart_args
default_restart_args_kept = refl

reread-plan_from_json :
    (target : Target) (object : Fields)
    → reread target (plan_from_json target object) ≡ plan_from_json target object
unfolding reread plan_from_json read_string read_string_list check_from_json
reread-plan_from_json target object = simp (
  to_int_or_idem (value object (codes "formatVersion")) (pos 1),
  trimmed_idem,
  from_native-trimmed target,
  keep_texts_idem,
  keep_texts-or_default (keep_texts (to_array (value object (codes "preservePaths"))))
      default_preserve_paths (keep_texts_idem (to_array (value object (codes "preservePaths"))))
      default_preserve_paths_kept,
  keep_texts-or_default (keep_texts (to_array (value object (codes "restartArgs"))))
      default_restart_args (keep_texts_idem (to_array (value object (codes "restartArgs"))))
      default_restart_args_kept,
)

last_missing-same :
    (object again : Fields) (keys : List Text)
    → All (λ key. is_empty (read_string object key) ≡ is_empty (read_string again key)) keys
    → last_missing object keys ≡ last_missing again keys
unfolding last_missing
last_missing-same object again [] same = refl
last_missing-same object again (key ∷ keys) (here, rest) =
    ground (arith, last_missing-same object again keys rest, here)

is_empty-from_native :
    (target : Target) (text : Text)
    → is_empty
        (trimmed (from_native_separators target (from_native_separators target (trimmed text))))
      ≡ is_empty (trimmed text)
unfolding from_native_separators
is_empty-from_native windows text = rw (
  slashes_idem (trimmed text),
  trimmed-slashes (trimmed text),
  trimmed_idem text,
  is_empty-slashes (trimmed text),
)
is_empty-from_native macos text = rw (trimmed_idem text)
is_empty-from_native linux text = rw (trimmed_idem text)
is_empty-from_native other text = rw (trimmed_idem text)

same_blank : (text : Text) → is_empty (trimmed (trimmed text)) ≡ is_empty (trimmed text)
same_blank text = rw (trimmed_idem text)

-- The fields that are missing in an object are those missing in what is written of it.
pub last_missing-plan_to_json :
    (target : Target) (object : Fields)
    → last_missing (plan_to_json target (plan_from_json target object)) required_keys
      ≡ last_missing object required_keys
unfolding plan_from_json plan_to_json plan_head_to_json insert value read_string
last_missing-plan_to_json target object =
    last_missing-same (plan_to_json target (plan_from_json target object)) object required_keys (
      blank (codes "createdAt"),
      (
        blank (codes "currentVersion"),
        (
          blank (codes "targetVersion"),
          (
            blank (codes "installationMode"),
            (
              native (codes "appDir"),
              (
                native (codes "stagingDir"),
                (
                  native (codes "backupDir"),
                  (
                    blank (codes "mainExecutable"),
                    (blank (codes "helperExecutable"), (blank (codes "updaterExecutable"), tt)),
                  ),
                ),
              ),
            ),
          ),
        ),
      ),
    )
  where
    blank :
        (key : Text)
        → is_empty (trimmed (trimmed (to_string (value object key))))
          ≡ is_empty (trimmed (to_string (value object key)))
    blank key = same_blank (to_string (value object key))

    native :
        (key : Text)
        → is_empty (
            trimmed (
              from_native_separators target
                (from_native_separators target (trimmed (to_string (value object key))))))
          ≡ is_empty (trimmed (to_string (value object key)))
    native key = is_empty-from_native target (to_string (value object key))

pub plan_from_json-reread :
    (target : Target) (object : Fields)
    → plan_from_json target (plan_to_json target (plan_from_json target object))
      ≡ plan_from_json target object
plan_from_json-reread target object =
    plan_from_json-plan_to_json target (plan_from_json target object)
    ∙ reread-plan_from_json target object
