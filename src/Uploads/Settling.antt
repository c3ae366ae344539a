-- ===== src/Uploads/Settling.antt =====
-- Closing a session of server/internal/dao/upload.go, and its reservation.
use Prim.Native.String.{String}
use file_share_manager.Prelude.{
  ℕ, ◌+◌, ◌-◌, ◌==◌, true, false, List, some, ◌≡◌, refl, sym, ap, ◌∙◌, subst, inl, inr, find_first,
  find_first_sound, update_first, update_where, update_where-In, In, Bool-cases, arith,
  if◌then◌else◌,
}
use file_share_manager.Uploads.Store.{
  SessionStatus, completed, expired, UploadSession, Workspace, Store, is_closed, is_session,
}
use file_share_manager.Uploads.Keys.{IsDistinct, KeepsKey, update_first-IsDistinct}
use file_share_manager.Uploads.Reserved.{
  open_size, reserved_for, reserved_for-update_first, IsBalanced,
}
use file_share_manager.Uploads.Quota.{
  is_workspace, release_workspace, consume_workspace, release_quota, consume_quota,
}
use file_share_manager.Uploads.Sessions.{with_status, close_session}
use file_share_manager.Uploads.Finalize.{complete_session}

pub with_status-KeepsKey : (status : SessionStatus) → KeepsKey (with_status status)
unfolding is_session
with_status-KeepsKey status = record { found = λ w u i z. refl; finds = λ x z. refl }

pub is_session_workspace :
    (w u : ℕ) (i : String) (x : UploadSession) → is_session w u i x ≡ true → x.workspace_id ≡ w
unfolding is_session
is_session_workspace w u i x h = ground arith

open_size_open :
    (w : ℕ) (x : UploadSession)
    → is_closed x.status ≡ false
    → open_size w x ≡ (if x.workspace_id == w then x.total_size else 0)
open_size_open w x h =
    rw h (elim (Bool-cases (x.workspace_id == w)) [ inl e ↦ rw e refl | inr e ↦ rw e refl ])

open_size_closed : (w : ℕ) (x : UploadSession) → is_closed x.status ≡ true → open_size w x ≡ 0
open_size_closed w x h =
    rw h (elim (Bool-cases (x.workspace_id == w)) [ inl e ↦ rw e refl | inr e ↦ rw e refl ])

-- The reservation of one workspace.
settled :
    (i workspace_id size reserved before after : ℕ)
    → reserved ≡ before
    → after + (if workspace_id == i then size else 0) ≡ before + 0
    → (if i == workspace_id then reserved - size else reserved) ≡ after
settled i workspace_id size reserved before after e h = ground arith

module _ (workspace_id user_id : ℕ) (session_id : String) (status : SessionStatus)
    (closes : is_closed status ≡ true) (s t : Store) (x : UploadSession) (balanced : IsBalanced s)
    (query : find_first (is_session workspace_id user_id session_id) s.sessions ≡ some x)
    (is_open : is_closed x.status ≡ false)
    (sessions : t.sessions
      ≡ update_first
          (is_session workspace_id user_id session_id)
          (with_status status)
          s.sessions) where
  reservation :
      (i reserved : ℕ)
      → reserved ≡ reserved_for i s.sessions
      → (if i == workspace_id then reserved - x.total_size else reserved)
        ≡ reserved_for i t.sessions
  reservation i reserved e =
      let (_, m) =
        find_first_sound (is_session workspace_id user_id session_id) s.sessions x query in
      let w = is_session_workspace workspace_id user_id session_id x m in
      settled i workspace_id x.total_size reserved (reserved_for i s.sessions)
        (reserved_for i t.sessions) e
        (rw sessions (
          subst
            (λ k.
              reserved_for i (
                  update_first (is_session workspace_id user_id session_id) (with_status status)
                    s.sessions)
                + (if k == i then x.total_size else 0)
              ≡ reserved_for i s.sessions + 0)
            w
            (subst
              (λ k.
                reserved_for i (
                    update_first (is_session workspace_id user_id session_id) (with_status status)
                      s.sessions)
                  + k
                ≡ reserved_for i s.sessions + 0)
              (open_size_open i x is_open)
              (reserved_for-update_first i _ (with_status status) s.sessions x query
                ∙ ap (λ k. reserved_for i s.sessions + k)
                    (open_size_closed i (with_status status x) closes)))))

  pub settles :
      ((w : Workspace)
        → In w t.workspaces
        → (v : Workspace) × In v s.workspaces
          × (w.id ≡ v.id)
          × (w.reserved_bytes ≡ (
              if v.id == workspace_id then v.reserved_bytes - x.total_size else v.reserved_bytes)))
      → IsBalanced t
  settles rows = record {
    balanced = λ w i.
        let (v, j, e, r) = rows w i in
        r
        ∙ reservation v.id v.reserved_bytes (balanced.balanced v j)
        ∙ ap (λ k. reserved_for k t.sessions) (sym e);
    distinct = subst IsDistinct (sym sessions) (
        update_first-IsDistinct (with_status status) (with_status-KeepsKey status) _ s.sessions
          balanced.distinct);
  }

-- The rows of `workspaces` after a release, and after a consumption.
changed_rows :
    (f : Workspace → Workspace) (workspace_id size : ℕ) (ws : List Workspace)
    → ((v : Workspace) → (f v).id ≡ v.id)
    → ((v : Workspace) → (f v).reserved_bytes ≡ v.reserved_bytes - size)
    → (w : Workspace) → In w (update_where (is_workspace workspace_id) f ws)
    → (v : Workspace) × In v ws
      × (w.id ≡ v.id)
      × (w.reserved_bytes
          ≡ (if v.id == workspace_id then v.reserved_bytes - size else v.reserved_bytes))
changed_rows f workspace_id size ws a b w i =
    let (v, j, e) = update_where-In (is_workspace workspace_id) f w ws i in
    elim (Bool-cases (v.id == workspace_id)) [
      | inl t ↦
          let q = rw t at e in
          (
            v,
            j,
            ap (λ (r : Workspace). r.id) q ∙ a v,
            rw t (ap (λ (r : Workspace). r.reserved_bytes) q ∙ b v),
          )
      | inr t ↦
          let q = rw t at e in
          (v, j, ap (λ (r : Workspace). r.id) q, rw t (ap (λ (r : Workspace). r.reserved_bytes) q))
    ]

module _ (workspace_id user_id : ℕ) (session_id : String) (s : Store) (x : UploadSession)
    (balanced : IsBalanced s)
    (query : find_first (is_session workspace_id user_id session_id) s.sessions ≡ some x)
    (is_open : is_closed x.status ≡ false) where
  pub close_session-IsBalanced :
      IsBalanced (close_session workspace_id user_id session_id x.total_size s)
  unfolding close_session release_quota
  close_session-IsBalanced =
      settles workspace_id user_id session_id expired refl s _ x balanced query is_open refl (
        changed_rows (release_workspace x.total_size) workspace_id x.total_size s.workspaces
          (λ v. refl) (λ v. refl))

  pub complete_session-IsBalanced :
      IsBalanced (complete_session session_id workspace_id user_id x.total_size s)
  unfolding complete_session consume_quota
  complete_session-IsBalanced =
      settles workspace_id user_id session_id completed refl s _ x balanced query is_open refl (
        changed_rows (consume_workspace x.total_size) workspace_id x.total_size s.workspaces
          (λ v. refl) (λ v. refl))
