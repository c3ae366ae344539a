-- ===== src/Files/Model.antt =====
-- The table of file versions of server/internal/model/file.go. Times are numbers.
use Prim.Native.String.{String}
use text.Mathlib.Text.{◌==◌ as str_eq}
use file_share_manager.Prelude.{
  ℕ, ltb, ◌==◌, Bool, ◌&&◌, List, [], ◌∷◌, Option, none, some, select, if◌then◌else◌,
}

pub data ScanStatus : Type 0 where
  clean infected pending_scan scan_error unscanned : ScanStatus

-- `unset` is the empty text, `absent` a column without a value, which is read as the empty text.
pub data StorageClass : Type 0 where
  unset standard archive glacier restoring absent : StorageClass

pub record FileVersion : Type 0 where
  pub id : ℕ
  pub workspace_id : ℕ
  pub node_id : ℕ
  pub version_no : ℕ
  pub storage_key : String
  pub storage_class : StorageClass
  pub archive_error : String
  pub last_accessed_at : Option ℕ
  pub size : ℕ
  pub sha256 : String
  pub extension : String
  pub detected_mime : String
  pub risk_level : String
  pub scan_status : ScanStatus
  pub scan_message : String
  pub scan_retry_count : ℕ
  pub scan_next_retry_at : Option ℕ
  pub scan_last_attempt_at : Option ℕ
  pub encrypted : Bool
  pub created_by : ℕ
  pub created_at : ℕ

-- `Create` fills an empty column with the default of the model: `default:'standard'`.
abbrev pub inserted_class : StorageClass → StorageClass
inserted_class unset = standard
inserted_class absent = standard
inserted_class class = class

-- `default:'unknown'`.
abbrev pub inserted_risk : String → String
inserted_risk level = if str_eq level "" then "unknown" else level

-- The row that `Create` inserts for a version.
abbrev pub inserted_version : FileVersion → FileVersion
inserted_version v = record v {
  storage_class = inserted_class v.storage_class;
  risk_level = inserted_risk v.risk_level;
}

-- `Order("version_no DESC").First`: the row with the greatest number.
abbrev pub greater_version : FileVersion → Option FileVersion → FileVersion
greater_version v none = v
greater_version v (some w) = if ltb v.version_no w.version_no then w else v

abbrev pub greatest_version : List FileVersion → Option FileVersion
greatest_version [] = none
greatest_version (v ∷ versions) = some (greater_version v (greatest_version versions))

-- The versions of one node.
abbrev pub versions_of : ℕ → ℕ → List FileVersion → List FileVersion
versions_of workspace_id node_id =
    select (λ v. v.workspace_id == workspace_id && v.node_id == node_id)

abbrev pub latest_version : ℕ → ℕ → List FileVersion → Option FileVersion
latest_version workspace_id node_id versions =
    greatest_version (versions_of workspace_id node_id versions)
