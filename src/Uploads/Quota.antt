-- ===== src/Uploads/Quota.antt =====
-- `reserveQuota`, `releaseQuota` and `consumeQuota` of server/internal/dao/upload.go.
use file_share_manager.Prelude.{
  ℕ, ◌+◌, ◌-◌, ◌%◌, ◌^◌, ◌==◌, ltb, Bool, false, ◌&&◌, not, Option, none, some, Result, ok, ◌>>=◌,
  ◌>>◌, guard, or_fail, find_first, update_where,
}
use file_share_manager.Uploads.Store.{
  Workspace, Membership, Store, Error, quota_exceeded, record_not_found,
}

-- `used + reserved + bytes > quota` in int64: the sum wraps around, and a sum whose top bit is set
-- is negative. A quota is not negative.
unfoldable pub exceeds : Option ℕ → ℕ → ℕ → ℕ → Bool
exceeds none used reserved bytes = false
exceeds (some quota) used reserved bytes =
    let sum = (used + reserved + bytes) % 2 ^ 64 in ltb sum (2 ^ 63) && ltb quota sum

abbrev pub is_workspace : ℕ → Workspace → Bool
is_workspace id w = w.id == id

abbrev pub is_member : ℕ → ℕ → Membership → Bool
is_member workspace_id user_id m = m.workspace_id == workspace_id && m.user_id == user_id

abbrev pub reserve_workspace : ℕ → Workspace → Workspace
reserve_workspace bytes w = record w { reserved_bytes = w.reserved_bytes + bytes }

abbrev pub reserve_member : ℕ → Membership → Membership
reserve_member bytes m = record m { reserved_bytes = m.reserved_bytes + bytes }

-- `GREATEST(reserved_bytes - ?, 0)` is the subtraction of numbers.
abbrev pub release_workspace : ℕ → Workspace → Workspace
release_workspace bytes w = record w { reserved_bytes = w.reserved_bytes - bytes }

abbrev pub release_member : ℕ → Membership → Membership
release_member bytes m = record m { reserved_bytes = m.reserved_bytes - bytes }

abbrev pub consume_workspace : ℕ → Workspace → Workspace
consume_workspace bytes w = record w {
  used_bytes = w.used_bytes + bytes;
  reserved_bytes = w.reserved_bytes - bytes;
}

abbrev pub consume_member : ℕ → Membership → Membership
consume_member bytes m = record m {
  used_bytes = m.used_bytes + bytes;
  reserved_bytes = m.reserved_bytes - bytes;
}

-- The part of `reserveQuota` about the membership: a user without one has no limit of their own.
unfoldable pub reserve_membership : ℕ → ℕ → ℕ → Option Membership → Store → Result Error Store
unfolding exceeds
reserve_membership workspace_id user_id bytes none s = ok s
reserve_membership workspace_id user_id bytes (some m) s = do
  guard (not (exceeds m.quota_bytes m.used_bytes m.reserved_bytes bytes)) quota_exceeded
  ok (record s {
    memberships =
        update_where (is_member workspace_id user_id) (reserve_member bytes) s.memberships;
  })

unfoldable pub reserve_quota : ℕ → ℕ → ℕ → Store → Result Error Store
unfolding exceeds reserve_membership
reserve_quota workspace_id user_id bytes s = do
  w ← or_fail (find_first (is_workspace workspace_id) s.workspaces) record_not_found
  guard (not (exceeds w.quota_bytes w.used_bytes w.reserved_bytes bytes)) quota_exceeded
  reserve_membership workspace_id user_id bytes
      (find_first (is_member workspace_id user_id) s.memberships)
      (record s {
        workspaces =
            update_where (is_workspace workspace_id) (reserve_workspace bytes) s.workspaces;
      })

unfoldable pub release_quota : ℕ → ℕ → ℕ → Store → Store
release_quota workspace_id user_id bytes s = record s {
  workspaces = update_where (is_workspace workspace_id) (release_workspace bytes) s.workspaces;
  memberships = update_where (is_member workspace_id user_id) (release_member bytes) s.memberships;
}

unfoldable pub consume_quota : ℕ → ℕ → ℕ → Store → Store
consume_quota workspace_id user_id bytes s = record s {
  workspaces = update_where (is_workspace workspace_id) (consume_workspace bytes) s.workspaces;
  memberships = update_where (is_member workspace_id user_id) (consume_member bytes) s.memberships;
}
