-- ===== src/Uploads/Finalize.antt =====
-- `FinalizeSession` of server/internal/dao/upload.go: the assembled file becomes a version, of the
-- file that the session overwrites or of a new file. One transaction.
use Prim.Native.String.{String}
use file_share_manager.Prelude.{
  ℕ, suc, ◌+◌, ◌==◌, eq_option, Bool, ◌&&◌, not, [], ◌∷◌, ◌++◌, Option, none, some, Result, ok,
  ◌>>=◌, ◌>>◌, guard, or_fail, find_first, any, update_first, length,
}
use file_share_manager.Nodes.Store.{Node, is_active_file}
use file_share_manager.Nodes.Tree.{inherited_closures, update_node}
use file_share_manager.Files.Model.{inserted_version, FileVersion, latest_version}
use file_share_manager.Uploads.Store.{
  completed, UploadSession, Store, Error, upload_not_found, upload_state, version_conflict,
  upload_incomplete, duplicated_key, is_writable, is_session,
}
use file_share_manager.Uploads.Quota.{consume_quota}
use file_share_manager.Uploads.Sessions.{decode_received_chunks, with_status}

-- `appendChange`, without the JSON payload.
unfoldable pub append_change : ℕ → String → ℕ → String → Store → Store
append_change workspace_id entity_type entity_id operation s = record s {
  changes =
      s.changes
      ++ record {
        workspace_id = workspace_id;
        entity_type = entity_type;
        entity_id = entity_id;
        operation = operation;
      }
        ∷ [];
}

-- `tx.Create(version)`: the table has one row for a node and a version number.
abbrev pub with_version : FileVersion → Store → Store
with_version version s = record s {
  versions = s.versions ++ record (inserted_version version) { id = s.next_version_id } ∷ [];
  next_version_id = suc s.next_version_id;
}

abbrev pub is_same_version : FileVersion → FileVersion → Bool
is_same_version version v =
    v.workspace_id == version.workspace_id
    && v.node_id == version.node_id
    && v.version_no == version.version_no

unfoldable pub create_version : FileVersion → Store → Result Error Store
create_version version s =
    guard (not (any (is_same_version version) s.versions)) duplicated_key
    >> ok (with_version version s)

-- Creating the version of a node, and making it the active one.
abbrev pub with_active_version : ℕ → ℕ → Store → Store
with_active_version node_id version_id s = record s {
  nodes = update_node node_id (λ n. record n { active_version = some version_id }) s.nodes;
}

unfoldable pub activate_version : ℕ → FileVersion → Store → Result Error Store
unfolding create_version
activate_version node_id version s = do
  t ← create_version version s
  ok (with_active_version node_id s.next_version_id t)

-- The number of the latest version, or 0.
abbrev pub current_version_no : Option FileVersion → ℕ
current_version_no none = 0
current_version_no (some latest) = latest.version_no

-- The version of a file behind its current one.
abbrev pub next_version : ℕ → ℕ → ℕ → FileVersion → FileVersion
next_version workspace_id node_id current version = record version {
  workspace_id = workspace_id;
  node_id = node_id;
  version_no = current + 1;
}

unfoldable pub overwrite_node : ℕ → ℕ → Option ℕ → FileVersion → Store → Result Error Store
unfolding activate_version append_change
overwrite_node workspace_id node_id base_version_no version s = do
  current_node ← or_fail (find_first (is_active_file workspace_id node_id) s.nodes) upload_not_found
  let current = current_version_no (latest_version workspace_id current_node.id s.versions)
  guard (eq_option base_version_no (some current)) version_conflict
  t ← activate_version current_node.id (next_version workspace_id current_node.id current version) s
  ok (append_change workspace_id "file_version" s.next_version_id "create" t)

-- A new node with its rows in the closure table.
abbrev pub with_node : Node → Store → Store
with_node node s =
    let self = record { ancestor_id = node.id; descendant_id = node.id; depth = 0 } ∷ [] in
    record s {
      nodes = s.nodes ++ node ∷ [];
      closures =
          (s.closures ++ self) ++ inherited_closures node.id node.parent_id (s.closures ++ self);
      next_node_id = suc s.next_node_id;
    }

unfoldable pub create_node : ℕ → FileVersion → Node → Store → Result Error Store
unfolding activate_version append_change inherited_closures
create_node workspace_id version draft s = do
  let node = record draft { id = s.next_node_id; workspace_id = workspace_id }
  t ←
      activate_version node.id
        (record version { workspace_id = workspace_id; node_id = node.id; version_no = 1 })
        (with_node node s)
  ok (
      append_change workspace_id "file_version" s.next_version_id "create"
        (append_change workspace_id "node" node.id "create" t))

-- The two branches of the transaction.
unfoldable pub place_version :
    ℕ → UploadSession → Option ℕ → FileVersion → Node → Store → Result Error Store
unfolding overwrite_node create_node
place_version workspace_id session none version node s = create_node workspace_id version node s
place_version workspace_id session (some node_id) version node s =
    overwrite_node workspace_id node_id session.base_version_no version s

-- The quota is consumed, and the session is completed.
unfoldable pub complete_session : String → ℕ → ℕ → ℕ → Store → Store
unfolding is_session consume_quota
complete_session session_id workspace_id user_id size s =
    let t = consume_quota workspace_id user_id size s in
    record t {
      sessions =
          update_first (is_session workspace_id user_id session_id) (with_status completed)
            t.sessions;
    }

unfoldable pub finalize_session : String → ℕ → ℕ → FileVersion → Node → Store → Result Error Store
unfolding is_session place_version decode_received_chunks complete_session
finalize_session session_id workspace_id user_id version node s = do
  session ←
      or_fail (find_first (is_session workspace_id user_id session_id) s.sessions) upload_not_found
  guard (is_writable session.status) upload_state
  received ← decode_received_chunks session.received_chunks
  guard (length received == session.total_chunks) upload_incomplete
  t ← place_version workspace_id session session.node_id version node s
  ok (complete_session session_id workspace_id user_id session.total_size t)
