-- ===== src/Uploads/Opening.antt =====
-- Creating a session and marking its parts.
use Prim.Native.String.{String}
use text.Mathlib.Text.{◌==◌ as str_eq}
use file_share_manager.Prelude.{
  ok_injective, not-false, ℕ, ◌+◌, ◌==◌, true, false, not, false≢true, List, [], ◌∷◌, ◌++◌, Option,
  none, some, ◌≡◌, refl, sym, ap, ◌∙◌, subst, inl, inr, Result, ok, >>=-eq-ok, or_fail-passed,
  guard-passed, any, find_first, update_first, update_where, update_where-In, In, Bool-cases, arith,
  if◌then◌else◌,
}
use file_share_manager.Uploads.Store.{
  uploading, UploadSession, Workspace, Membership, Store, Error, upload_not_found, upload_state,
  quota_exceeded, record_not_found, duplicated_key, is_closed, is_writable, is_session,
  SessionStatus,
}
use file_share_manager.Uploads.Keys.{
  IsDistinct, KeepsKey, update_first-IsDistinct, append-IsDistinct,
}
use file_share_manager.Uploads.Reserved.{
  open_size, reserved_for, reserved_for-update_first, reserved_for-append, IsBalanced,
}
use file_share_manager.Uploads.Quota.{
  exceeds, is_workspace, is_member, reserve_workspace, reserve_membership, reserve_quota,
}
use file_share_manager.Uploads.Sessions.{
  create_session, mark_part_received, decode_received_chunks, encode_chunks, with_part,
}

-- The part about the membership leaves the other tables alone.
reserve_membership-tables :
    (workspace_id user_id bytes : ℕ) (o : Option Membership) (s t : Store)
    → reserve_membership workspace_id user_id bytes o s ≡ ok t
    → (t.workspaces ≡ s.workspaces) × (t.sessions ≡ s.sessions)
unfolding reserve_membership
reserve_membership-tables workspace_id user_id bytes none s t h =
    let e = ok_injective s t h in
    (sym (ap (λ (r : Store). r.workspaces) e), sym (ap (λ (r : Store). r.sessions) e))
reserve_membership-tables workspace_id user_id bytes (some m) s t h =
    let (_, h1) =
      guard-passed (not (exceeds m.quota_bytes m.used_bytes m.reserved_bytes bytes)) quota_exceeded
        _ h in
    let e = ok_injective _ t h1 in
    (sym (ap (λ (r : Store). r.workspaces) e), sym (ap (λ (r : Store). r.sessions) e))

-- A reservation adds its bytes to the workspace, whose quota it has passed.
pub reserve_quota-tables :
    (workspace_id user_id bytes : ℕ) (s t : Store)
    → reserve_quota workspace_id user_id bytes s ≡ ok t
    → (w : Workspace) × (find_first (is_workspace workspace_id) s.workspaces ≡ some w)
      × (exceeds w.quota_bytes w.used_bytes w.reserved_bytes bytes ≡ false)
      × (t.workspaces
          ≡ update_where (is_workspace workspace_id) (reserve_workspace bytes) s.workspaces)
      × (t.sessions ≡ s.sessions)
unfolding reserve_quota
reserve_quota-tables workspace_id user_id bytes s t h =
    let (w, e, h1) =
      or_fail-passed (find_first (is_workspace workspace_id) s.workspaces) record_not_found _ h in
    let (q, h2) =
      guard-passed (not (exceeds w.quota_bytes w.used_bytes w.reserved_bytes bytes)) quota_exceeded
        _ h1 in
    let (a, b) =
      reserve_membership-tables workspace_id user_id bytes
        (find_first (is_member workspace_id user_id) s.memberships) _ t h2 in
    (w, e, not-false _ q, a, b)

reserved_row :
    (i workspace_id bytes reserved before : ℕ)
    → reserved ≡ before
    → (if i == workspace_id then reserved + bytes else reserved)
      ≡ before + (if workspace_id == i then bytes else 0)
reserved_row i workspace_id bytes reserved before e = ground arith

open_size_open :
    (w : ℕ) (x : UploadSession)
    → is_closed x.status ≡ false
    → (if x.workspace_id == w then x.total_size else 0) ≡ open_size w x
open_size_open w x h =
    rw h (elim (Bool-cases (x.workspace_id == w)) [ inl e ↦ rw e refl | inr e ↦ rw e refl ])

opened :
    (session : UploadSession) (s u : Store)
    → IsBalanced s
    → is_closed session.status ≡ false
    → u.workspaces
      ≡ update_where
          (is_workspace session.workspace_id)
          (reserve_workspace session.total_size)
          s.workspaces
    → u.sessions ≡ s.sessions
    → any (λ (x : UploadSession). str_eq x.id session.id) u.sessions ≡ false
    → IsBalanced (record u { sessions = u.sessions ++ session ∷ [] })
opened session s u b c rows same fresh = record {
  balanced = λ w i.
      let (v, j, e) =
        update_where-In (is_workspace session.workspace_id) (reserve_workspace session.total_size) w
          s.workspaces (subst (In w) rows i) in
      let r =
        reserved_row v.id session.workspace_id session.total_size v.reserved_bytes
          (reserved_for v.id s.sessions) (b.balanced v j) in
      let sum = ap (λ xs. reserved_for v.id xs) (ap (λ xs. xs ++ session ∷ []) (sym same)) in
      elim (Bool-cases (v.id == session.workspace_id)) [
        | inl q ↦
            let k = rw q at e in
            ap (λ (a : Workspace). a.reserved_bytes) k
            ∙ (rw q at r)
            ∙ ap (λ n. reserved_for v.id s.sessions + n) (open_size_open v.id session c)
            ∙ sym (reserved_for-append v.id s.sessions session)
            ∙ sum
            ∙ ap (λ n. reserved_for n (u.sessions ++ session ∷ []))
                (sym (ap (λ (a : Workspace). a.id) k))
        | inr q ↦
            let k = rw q at e in
            ap (λ (a : Workspace). a.reserved_bytes) k
            ∙ (rw q at r)
            ∙ ap (λ n. reserved_for v.id s.sessions + n) (open_size_open v.id session c)
            ∙ sym (reserved_for-append v.id s.sessions session)
            ∙ sum
            ∙ ap (λ n. reserved_for n (u.sessions ++ session ∷ []))
                (sym (ap (λ (a : Workspace). a.id) k))
      ];
  distinct = append-IsDistinct u.sessions session (subst IsDistinct (sym same) b.distinct) fresh;
}

pub create_session-IsBalanced :
    (session : UploadSession) (s t : Store)
    → IsBalanced s
    → is_closed session.status ≡ false
    → create_session session s ≡ ok t
    → IsBalanced t
unfolding create_session
create_session-IsBalanced session s t b c h =
    let (u, r, h1) =
      >>=-eq-ok (reserve_quota session.workspace_id session.created_by session.total_size s) _ h in
    let (k, h2) =
      guard-passed (not (any (λ (x : UploadSession). str_eq x.id session.id) u.sessions))
        duplicated_key _ h1 in
    let (_, _, _, rows, same) =
      reserve_quota-tables session.workspace_id session.created_by session.total_size s u r in
    subst IsBalanced (ok_injective _ t h2) (opened session s u b c rows same (not-false _ k))

abbrev marked : List ℕ → UploadSession → UploadSession
marked received x = record x { received_chunks = encode_chunks received; status = uploading }

marked-KeepsKey : (received : List ℕ) → KeepsKey (marked received)
unfolding is_session
marked-KeepsKey received = record { found = λ w u i z. refl; finds = λ x z. refl }

pub is_writable_open :
    (status : SessionStatus) → is_writable status ≡ true → is_closed status ≡ false
is_writable_open SessionStatus.initialized h = refl
is_writable_open SessionStatus.uploading h = refl
is_writable_open SessionStatus.merging h = refl
is_writable_open SessionStatus.scanning h = refl
is_writable_open SessionStatus.failed h = refl
is_writable_open SessionStatus.completed h = absurd (false≢true h)
is_writable_open SessionStatus.expired h = absurd (false≢true h)

marking :
    (workspace_id user_id : ℕ) (session_id : String) (received : List ℕ) (s : Store)
    (x : UploadSession)
    → IsBalanced s
    → find_first (is_session workspace_id user_id session_id) s.sessions ≡ some x
    → is_closed x.status ≡ false
    → IsBalanced (record s {
      sessions =
          update_first (is_session workspace_id user_id session_id) (marked received) s.sessions;
    })
marking workspace_id user_id session_id received s x b q c = record {
  balanced = λ w i.
      let e =
        reserved_for-update_first w.id (is_session workspace_id user_id session_id)
          (marked received) s.sessions x q in
      let o = sym (open_size_open w.id x c) in
      let m = sym (open_size_open w.id (marked received x) refl) in
      let n = b.balanced w i in
      n ∙ cancelled _ _ _ (e ∙ ap (λ k. reserved_for w.id s.sessions + k) (m ∙ sym o));
  distinct =
      update_first-IsDistinct (marked received) (marked-KeepsKey received) _ s.sessions b.distinct;
}
  where
    cancelled : (a b c : ℕ) → a + c ≡ b + c → b ≡ a
    cancelled a b c e = omega arith

abbrev answer : List ℕ → Store → List ℕ × Store
answer received s = (received, s)

pair_injective :
    (a b : List ℕ) (s t : Store)
    → ◌≡◌ {A = Result Error (List ℕ × Store)} (ok (answer a s)) (ok (answer b t))
    → s ≡ t
pair_injective a b s t h = cc

pub mark_part_received-IsBalanced :
    (workspace_id user_id : ℕ) (session_id : String) (part_no : ℕ) (s t : Store) (received : List ℕ)
    → IsBalanced s
    → mark_part_received workspace_id user_id session_id part_no s ≡ ok (received, t)
    → IsBalanced t
unfolding mark_part_received
mark_part_received-IsBalanced workspace_id user_id session_id part_no s t received b h =
    let (x, q, h1) =
      or_fail-passed (find_first (is_session workspace_id user_id session_id) s.sessions)
        upload_not_found _ h in
    let (w, h2) = guard-passed (is_writable x.status) upload_state _ h1 in
    let (old, _, h3) = >>=-eq-ok (decode_received_chunks x.received_chunks) _ h2 in
    subst IsBalanced (pair_injective _ received _ t h3) (
      marking workspace_id user_id session_id (with_part old part_no) s x b q
        (is_writable_open x.status w))
