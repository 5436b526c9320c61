-- ===== src/Rbac/Reconciliation/Scan.antt =====
-- The scan of a folder tree and the tasks that remedy drifts, of
-- api/services/rbac/reconciliation_service.py.
use pool_shrpnt.Prelude.{ℕ, suc, Bool, ◌++◌, List, [], ◌∷◌, Option, length, ltb}
use pool_shrpnt.Prelude.Text.{Text}
use pool_shrpnt.Prelude.Outcome.{Result, ok, err}
use pool_shrpnt.Rbac.Model.{PermissionLevel}
use pool_shrpnt.Rbac.Roles.{role_name_value}
use pool_shrpnt.Rbac.Reconciliation.Actual.{GraphClient}
use pool_shrpnt.Rbac.Reconciliation.{RoleDb, ActionRequired, PermissionDrift, compare_permissions}

pub record ReconciliationReport : Type 0 where
  pub scan_id : ℕ
  pub scanned_at : ℕ
  pub total_folders : ℕ
  pub folders_checked : ℕ
  pub drifts_detected : ℕ
  pub drifts : List PermissionDrift
  pub remediation_required : Bool

abbrev pub folders_to_check : Text → List Text
folders_to_check root_path = root_path ∷ []

-- The loop over the folders: an exception is logged and the folder is not counted.
pub scan_folders : (Text → Result (List PermissionDrift)) → List Text → ℕ × List PermissionDrift
scan_folders compare [] = (0, [])
scan_folders compare (folder_path ∷ folders) =
    let (checked, drifts) = scan_folders compare folders in
    elim (compare folder_path) [ err e ↦ (checked, drifts) | ok own ↦ (suc checked, own ++ drifts) ]

pub scan_folder_tree : Option GraphClient → Text → Text → ℕ → ℕ → RoleDb → ReconciliationReport
unfolding scan_folders compare_permissions
scan_folder_tree client site_id root_path scan_id now db =
    let (checked, found) =
      scan_folders (λ f. compare_permissions client site_id f now db)
        (folders_to_check root_path) in
    record {
      scan_id = scan_id;
      scanned_at = now;
      total_folders = length (folders_to_check root_path);
      folders_checked = checked;
      drifts_detected = length found;
      drifts = found;
      remediation_required = ltb 0 (length found);
    }

pub record RemediationTask : Type 0 where
  pub id : ℕ
  pub folder_path : Text
  pub role_name : Text
  pub action : ActionRequired
  pub desired_permission : Option PermissionLevel
  pub actual_permission : Option PermissionLevel
  pub created_at : ℕ

-- Each task draws an identifier. The type and the status of a task are the same for all.
pub create_remediation_tasks : (ℕ → ℕ) → ℕ → List PermissionDrift → List RemediationTask
create_remediation_tasks uuid now [] = []
create_remediation_tasks uuid now (drift ∷ drifts) =
    record {
      id = uuid (length drifts);
      folder_path = drift.folder_path;
      role_name = role_name_value drift.role_name;
      action = drift.action_required;
      desired_permission = drift.desired_permission;
      actual_permission = drift.actual_permission;
      created_at = now;
    }
    ∷ create_remediation_tasks uuid now drifts
