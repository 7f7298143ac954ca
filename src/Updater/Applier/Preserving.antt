-- ===== src/Updater/Applier/Preserving.antt =====
-- src/updater/runner/PortableUpdateApplier.cpp and UpdateRollback.cpp: what no update touches.
use zarya.Prelude.{◌≡◌, Option, Text}
use zarya.Updater.PlanFile.{UpdatePlan}
use zarya.Updater.Folder.{Folder, lookup}
use zarya.Updater.Applier.{Machine, Run, UpdateFailure}

module _ (run : Run) (plan : UpdatePlan) (path : Text) where
  -- A step leaves the file at a path of the application's folder as it is.
  Stays : Machine → Machine × Option UpdateFailure → Type 0
  unfolding lookup
  Stays m result = lookup (result.0).app path ≡ lookup m.app path
