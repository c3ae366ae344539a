-- ===== src/Uploads/Bounds.antt =====
-- The test of `reserveQuota` in server/internal/dao/upload.go.
use native.Mathlib.Nat.{mod-eq_of_lt}
use file_share_manager.Prelude.{
  ℕ, ◌+◌, ◌≤◌, ◌<◌, ◌%◌, ◌^◌, false, Option, none, some, ◌≡◌, sym, subst, ok, >>=-eq-ok, find_first,
  ltb, ◌&&◌, arith,
}
use file_share_manager.Uploads.Store.{UploadSession, Workspace, Store}
use file_share_manager.Uploads.Quota.{exceeds, is_workspace, reserve_quota}
use file_share_manager.Uploads.Sessions.{create_session}
use file_share_manager.Uploads.Opening.{reserve_quota-tables}

below_quota : (sum q : ℕ) → sum < 2 ^ 63 → (ltb sum (2 ^ 63) && ltb q sum) ≡ false → sum ≤ q
below_quota sum q l h = ground arith

same_row : {a b : Workspace} {o : Option Workspace} → o ≡ some a → o ≡ some b → a ≡ b
same_row h k = cc

exceeds-sum :
    (quota : Option ℕ) (q used reserved bytes : ℕ)
    → quota ≡ some q
    → used + reserved + bytes < 2 ^ 63
    → exceeds quota used reserved bytes ≡ false
    → used + reserved + bytes ≤ q
unfolding exceeds
exceeds-sum none q used reserved bytes e l h = cc
exceeds-sum (some p) q used reserved bytes e l h =
    let m : (used + reserved + bytes) % 2 ^ 64 ≡ used + reserved + bytes =
      mod-eq_of_lt (omega arith) in
    let k : p ≡ q = cc in
    let i = below_quota (used + reserved + bytes) p l (rw m at h) in omega arith

-- A session is created only where the used and reserved bytes of its workspace and the size of the
-- upload together stay within the workspace's quota, if their sum is below 2 ^ 63.
pub create_session-le-quota :
    (session : UploadSession) (s t : Store) (w : Workspace) (quota : ℕ)
    → find_first (is_workspace session.workspace_id) s.workspaces ≡ some w
    → w.quota_bytes ≡ some quota
    → w.used_bytes + w.reserved_bytes + session.total_size < 2 ^ 63
    → create_session session s ≡ ok t
    → w.used_bytes + w.reserved_bytes + session.total_size ≤ quota
unfolding create_session
create_session-le-quota session s t w quota f q l h =
    let (u, r, _) =
      >>=-eq-ok (reserve_quota session.workspace_id session.created_by session.total_size s) _ h in
    let (v, g, x, _, _) =
      reserve_quota-tables session.workspace_id session.created_by session.total_size s u r in
    let e = same_row f g in
    exceeds-sum w.quota_bytes quota w.used_bytes w.reserved_bytes session.total_size q l (
      subst
        (λ (z : Workspace).
          exceeds z.quota_bytes z.used_bytes z.reserved_bytes session.total_size ≡ false)
        (sym e) x)
