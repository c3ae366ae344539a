-- ===== src/Tests/Uploading.antt =====
-- An upload of one part over an existing file.
use file_share_manager.Prelude.{
  ℕ, ◌≤◌, ◌<◌, ◌+◌, ◌*◌, List, [], ◌∷◌, none, some, ◌≡◌, refl, ap, inl, inr, In, Result, ok, err,
  false, find_first, arith,
}
use file_share_manager.Nodes.Store.{file, Node, inherit, active}
use file_share_manager.Files.Model.{FileVersion, clean, standard, latest_version}
use file_share_manager.Uploads.Chunks.{
  max_upload_chunks, Dimensions, calculate_upload_chunk_count, validate_upload_session_dimensions,
}
use file_share_manager.Uploads.Chunks.Sizes.{
  calculate_upload_chunk_count_bounds, expected_parts_total, expected_parts_total-total_size,
}
use file_share_manager.Uploads.Store.{
  initialized, uploading, completed, index, listed, blank, UploadSession, Workspace, Store,
  is_session,
}
use file_share_manager.Uploads.Quota.{exceeds, reserve_membership, reserve_quota, consume_quota}
use file_share_manager.Uploads.Sessions.{
  insert_sorted, sort_ints, plain_indexes, decode_received_chunks, create_session,
  mark_part_received, contains_int,
}
use file_share_manager.Uploads.Finalize.{
  append_change, create_version, activate_version, current_version_no, overwrite_node,
  place_version, complete_session, finalize_session,
}
use file_share_manager.Uploads.Bounds.{create_session-le-quota}
use file_share_manager.Uploads.Reserved.{IsBalanced}
use file_share_manager.Uploads.Placing.{newest, finalize_session-latest}
use file_share_manager.Uploads.Accounting.{creates, marks, finalizes, done, step, Run-IsBalanced}

abbrev node : Node
node = record {
  id = 5;
  workspace_id = 1;
  parent_id = none;
  name = "plan.txt";
  normalized_name = "plan.txt";
  node_type = file;
  active_version = none;
  inherit_mode = inherit;
  status = active;
  trashed_at = none;
  created_by = 7;
  updated_by = 7;
}

abbrev version : FileVersion
version = record {
  id = 0;
  workspace_id = 0;
  node_id = 0;
  version_no = 0;
  storage_key = "k";
  storage_class = standard;
  archive_error = "";
  last_accessed_at = none;
  size = 10;
  sha256 = "h";
  extension = "txt";
  detected_mime = "text/plain";
  risk_level = "low";
  scan_status = clean;
  scan_message = "";
  scan_retry_count = 0;
  scan_next_retry_at = none;
  scan_last_attempt_at = none;
  encrypted = false;
  created_by = 7;
  created_at = 1;
}

abbrev session : UploadSession
session = record {
  id = "u";
  workspace_id = 1;
  node_id = some 5;
  target_parent_id = none;
  base_version_no = some 0;
  display_name = "plan.txt";
  total_size = 10;
  chunk_size = 1048576;
  total_chunks = 1;
  received_chunks = blank;
  client_sha256 = none;
  status = initialized;
  expires_at = 100;
  created_by = 7;
}

abbrev empty : Store
empty = record {
  workspaces = record { id = 1; quota_bytes = some 100; used_bytes = 0; reserved_bytes = 0 } ∷ [];
  memberships = [];
  sessions = [];
  nodes = node ∷ [];
  closures = [];
  versions = [];
  changes = [];
  next_node_id = 6;
  next_version_id = 1;
}

empty-IsBalanced : IsBalanced empty
empty-IsBalanced = record { balanced = no_reservation; distinct = tt }
  where
    no_reservation : (w : Workspace) → In w empty.workspaces → w.reserved_bytes ≡ 0
    no_reservation w (inl e) = ap (λ (x : Workspace). x.reserved_bytes) e
    no_reservation w (inr n) = absurd n

abbrev or_empty : {E : Type 0} → Result E Store → Store
or_empty (ok s) = s
or_empty (err e) = empty

abbrev or_nothing : {E : Type 0} → Result E (List ℕ × Store) → List ℕ × Store
or_nothing (ok r) = r
or_nothing (err e) = ([], empty)

abbrev opened : Store
opened = record empty {
  workspaces = record { id = 1; quota_bytes = some 100; used_bytes = 0; reserved_bytes = 10 } ∷ [];
  sessions = session ∷ [];
}

created : create_session session empty ≡ ok opened
unfolding create_session reserve_quota reserve_membership exceeds
created = refl

abbrev filled : Store
filled = record opened {
  sessions = record session { received_chunks = listed (index 0 ∷ []); status = uploading } ∷ [];
}

marked : mark_part_received 1 7 "u" 0 opened ≡ ok (0 ∷ [], filled)
unfolding mark_part_received is_session decode_received_chunks sort_ints insert_sorted plain_indexes
    contains_int
marked = refl

abbrev finished : Store
finished = record filled {
  workspaces = record { id = 1; quota_bytes = some 100; used_bytes = 10; reserved_bytes = 0 } ∷ [];
  sessions = record session { received_chunks = listed (index 0 ∷ []); status = completed } ∷ [];
  nodes = record node { active_version = some 1 } ∷ [];
  versions = newest 1 5 filled version ∷ [];
  changes =
      record { workspace_id = 1; entity_type = "file_version"; entity_id = 1; operation = "create" }
      ∷ [];
  next_version_id = 2;
}

finalizing : finalize_session "u" 1 7 version node filled ≡ ok finished
unfolding finalize_session is_session place_version overwrite_node activate_version create_version
    append_change complete_session consume_quota decode_received_chunks sort_ints insert_sorted
    plain_indexes
finalizing = refl

Run-IsBalanced_example : IsBalanced finished
Run-IsBalanced_example =
    Run-IsBalanced empty finished
      (step empty opened finished (creates session refl created) (
        step opened filled finished (marks 1 7 "u" 0 (0 ∷ []) marked) (
          step filled finished finished (finalizes "u" 1 7 version node finalizing)
            (done finished))))
      empty-IsBalanced

found :
    find_first (is_session 1 7 "u") filled.sessions
    ≡ some (record session { received_chunks = listed (index 0 ∷ []); status = uploading })
unfolding is_session
found = refl

finalize_session-latest_example :
    (some 0 ≡ some (current_version_no (latest_version 1 5 filled.versions)))
    × (latest_version 1 5 finished.versions ≡ some (newest 1 5 filled version))
finalize_session-latest_example =
    finalize_session-latest "u" 1 7 5 version node filled finished
      (record session { received_chunks = listed (index 0 ∷ []); status = uploading }) found refl
      finalizing

abbrev dimensions : Dimensions
dimensions = record { total_size = 2500000; chunk_size = 1048576; total_chunks = 3 }

counted : calculate_upload_chunk_count 2500000 1048576 3000000 ≡ ok 3
unfolding calculate_upload_chunk_count
counted = refl

calculate_upload_chunk_count_bounds_example :
    (2500000 ≤ 3 * 1048576)
    × (3 * 1048576 < 2500000 + 1048576)
    × (0 < 3)
    × (3 ≤ max_upload_chunks)
    × (2500000 ≤ 3000000)
calculate_upload_chunk_count_bounds_example =
    calculate_upload_chunk_count_bounds 2500000 1048576 3000000 counted

valid : validate_upload_session_dimensions dimensions 3000000 ≡ ok tt
unfolding validate_upload_session_dimensions calculate_upload_chunk_count
valid = refl

expected_parts_total-total_size_example : expected_parts_total dimensions 3 ≡ ok 2500000
expected_parts_total-total_size_example = expected_parts_total-total_size dimensions 3000000 valid

create_session-le-quota_example : 0 + 0 + 10 ≤ 100
create_session-le-quota_example =
    create_session-le-quota session empty opened
      (record { id = 1; quota_bytes = some 100; used_bytes = 0; reserved_bytes = 0 }) 100 refl refl
      (omega arith) created
