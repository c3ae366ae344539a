-- ===== src/Uploads/Store.antt =====
-- The tables of an upload: server/internal/model/file.go and server/internal/model/workspace.go.
-- Sizes are numbers; a quota that is not set is `none`.
use Prim.Native.String.{String}
use text.Mathlib.Text.{◌==◌ as str_eq}
use file_share_manager.Prelude.{ℕ, ◌==◌, Bool, true, false, ◌&&◌, List, Option}
use file_share_manager.Nodes.Store.{Node, NodeClosure, Change}
use file_share_manager.Files.Model.{FileVersion}

pub data SessionStatus : Type 0 where
  initialized uploading merging scanning completed failed expired : SessionStatus

-- The column `received_chunks`: empty text, text that is no JSON list of integers, or such a list.
-- An index is a natural number, or one of the negative integers that `DecodeReceivedChunks` refuses.
pub data ChunkIndex : Type 0 where
  index : ℕ → ChunkIndex
  negative : ℕ → ChunkIndex

pub data ReceivedChunks : Type 0 where
  blank garbled : ReceivedChunks
  listed : List ChunkIndex → ReceivedChunks

pub record UploadSession : Type 0 where
  pub id : String
  pub workspace_id : ℕ
  pub node_id : Option ℕ
  pub target_parent_id : Option ℕ
  pub base_version_no : Option ℕ
  pub display_name : String
  pub total_size : ℕ
  pub chunk_size : ℕ
  pub total_chunks : ℕ
  pub received_chunks : ReceivedChunks
  pub client_sha256 : Option String
  pub status : SessionStatus
  pub expires_at : ℕ
  pub created_by : ℕ

-- The columns of a workspace that uploads read and write.
pub record Workspace : Type 0 where
  pub id : ℕ
  pub quota_bytes : Option ℕ
  pub used_bytes : ℕ
  pub reserved_bytes : ℕ

pub record Membership : Type 0 where
  pub workspace_id : ℕ
  pub user_id : ℕ
  pub quota_bytes : Option ℕ
  pub used_bytes : ℕ
  pub reserved_bytes : ℕ

pub record Store : Type 0 where
  pub workspaces : List Workspace
  pub memberships : List Membership
  pub sessions : List UploadSession
  pub nodes : List Node
  pub closures : List NodeClosure
  pub versions : List FileVersion
  pub changes : List Change
  pub next_node_id : ℕ
  pub next_version_id : ℕ

pub data Error : Type 0 where
  upload_not_found upload_state version_conflict upload_incomplete quota_exceeded : Error
  record_not_found bad_chunk_list duplicated_key : Error

-- A session that is neither completed nor expired holds a reservation.
abbrev pub is_closed : SessionStatus → Bool
is_closed completed = true
is_closed expired = true
is_closed _ = false

abbrev pub is_writable : SessionStatus → Bool
is_writable initialized = true
is_writable uploading = true
is_writable _ = false

-- `WHERE id = ? AND workspace_id = ? AND created_by = ?`.
unfoldable pub is_session : ℕ → ℕ → String → UploadSession → Bool
is_session workspace_id user_id session_id s =
    str_eq s.id session_id && s.workspace_id == workspace_id && s.created_by == user_id
