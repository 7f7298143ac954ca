-- ===== src/Updater/PlanFile/RoundTrip.antt =====
-- src/updater/runner/UpdatePlanFile.cpp: what is written is read back.
use zarya.Prelude.{◌≡◌, subst, ap, ◌∙◌, true, Option, none, some, Text, arith}
use zarya.Json.{Json, obj, Fields}
use zarya.Updater.Planner.{Target}
use zarya.Updater.PlanFile.{
  UpdatePlan, UpdatePlanError, message, reading, writing, plan_error, plan_to_json, last_missing,
  plan_from_json, required_keys, from_json_error, Reading, read, unread, read_file, Writing,
  written, unwritten, write_file, with_time,
}
use zarya.Updater.PlanFile.Rereading.{last_missing-plan_to_json, plan_from_json-reread}

from_json_error-plan_to_json :
    (target : Target) (object : Fields)
    → from_json_error target (plan_to_json target (plan_from_json target object))
      ≡ from_json_error target object
unfolding from_json_error
from_json_error-plan_to_json target object =
    ap
      (λ missing.
        message missing
          (plan_from_json target (plan_to_json target (plan_from_json target object))))
      (last_missing-plan_to_json target object)
    ∙ ap (message (last_missing object required_keys)) (plan_from_json-reread target object)

-- The plan that is read from what a write leaves.
pub read_back : Target → Writing → Reading
unfolding read_file
read_back target (written document) = read_file target (some document)
read_back target (unwritten error) = unread error

with_time_filled :
    (now : Text) (plan : UpdatePlan) → plan_error plan ≡ none → with_time now plan ≡ plan
unfolding plan_error with_time
with_time_filled now plan h = ground arith

message-none :
    (missing : Option Text) (plan : UpdatePlan)
    → message missing plan ≡ none
    → plan_error plan ≡ none
unfolding message
message-none (some key) plan h = cc
message-none none plan h = h

write_file-written :
    (target : Target) (now : Text) (plan : UpdatePlan)
    → plan_error plan ≡ none
    → write_file target now true true plan ≡ written (obj (plan_to_json target plan))
unfolding write_file
write_file-written target now plan h =
    ap (λ validated. writing true true (plan_to_json target validated) (plan_error validated))
      (with_time_filled now plan h)
    ∙ ap (writing true true (plan_to_json target plan)) h

read_file-read :
    (target : Target) (object : Fields)
    → from_json_error target object ≡ none
    → read_file target (some (obj (plan_to_json target (plan_from_json target object))))
      ≡ read (plan_from_json target object)
unfolding read_file
read_file-read target object h =
    ap
      (λ error.
        reading error (plan_from_json target (plan_to_json target (plan_from_json target object))))
      (from_json_error-plan_to_json target object ∙ h)
    ∙ ap read (plan_from_json-reread target object)

reading-read :
    (error : Option UpdatePlanError) (plan found : UpdatePlan)
    → reading error plan ≡ read found
    → (error ≡ none) × (plan ≡ found)
reading-read (some error) plan found h = ground arith
reading-read none plan found h = ground arith

read_back-write_file :
    (target : Target) (now : Text) (object : Fields)
    → from_json_error target object ≡ none
    → read_back target (write_file target now true true (plan_from_json target object))
      ≡ read (plan_from_json target object)
unfolding read_back from_json_error
read_back-write_file target now object h =
    ap (read_back target) (
      write_file-written target now (plan_from_json target object)
        (message-none (last_missing object required_keys) (plan_from_json target object) h))
    ∙ read_file-read target object h

-- A plan that the updater has read from any document, written by `writeFile` to a file that takes
-- it, is read back by `readFile` as the same plan, whatever the target and the time.
pub read_file-write_file :
    (target : Target) (now : Text) (document : Json) (plan : UpdatePlan)
    → read_file target (some document) ≡ read plan
    → read_back target (write_file target now true true plan) ≡ read plan
unfolding read_file read_back
read_file-write_file target now (obj object) plan h =
    let (no_error, same) =
      reading-read (from_json_error target object) (plan_from_json target object) plan h in
    subst (λ plan. read_back target (write_file target now true true plan) ≡ read plan) same
      (read_back-write_file target now object no_error)
read_file-write_file target now _ plan h = ground arith
