-- ===== src/Uploads/Accounting.antt =====
-- The reservations of workspaces under sequences of the operations of
-- server/internal/dao/upload.go.
use Prim.Native.String.{String}
use file_share_manager.Prelude.{
  ok_injective, not-false, ℕ, leb, ltb, Bool, true, false, ◌&&◌, not, false≢true, List, [], ◌∷◌,
  some, ◌≡◌, refl, sym, ap, ◌∙◌, subst, inl, inr, Result, ok, >>=-eq-ok, or_fail-passed,
  guard-passed, find_first, select, select-In, In, Bool-cases,
}
use file_share_manager.Nodes.Store.{Node}
use file_share_manager.Files.Model.{FileVersion}
use file_share_manager.Uploads.Store.{
  expired, UploadSession, Store, Error, upload_not_found, upload_state, record_not_found, is_closed,
  is_session,
}
use file_share_manager.Uploads.Keys.{
  IsDistinct, same_key, find_first-In, find_first-update_first, select-IsDistinct,
}
use file_share_manager.Uploads.Reserved.{reserved_for, IsBalanced}
use file_share_manager.Uploads.Settling.{
  with_status-KeepsKey, close_session-IsBalanced, complete_session-IsBalanced,
}
use file_share_manager.Uploads.Opening.{
  create_session-IsBalanced, mark_part_received-IsBalanced, is_writable_open,
}
use file_share_manager.Uploads.Placing.{finalized, placed}
use file_share_manager.Uploads.Quota.{release_quota}
use file_share_manager.Uploads.Sessions.{
  create_session, with_status, close_session, expire_session, get_session, mark_part_received,
  cancel, expire_each, expire_sessions,
}
use file_share_manager.Uploads.Finalize.{finalize_session}

cancel-IsBalanced :
    (workspace_id user_id : ℕ) (session_id : String) (s t : Store)
    → IsBalanced s
    → cancel workspace_id user_id session_id s ≡ ok t
    → IsBalanced t
unfolding cancel
cancel-IsBalanced workspace_id user_id session_id s t b h =
    let (x, q, h1) =
      or_fail-passed (find_first (is_session workspace_id user_id session_id) s.sessions)
        upload_not_found _ h in
    let (c, h2) = guard-passed (not (is_closed x.status)) upload_state _ h1 in
    subst IsBalanced (ok_injective _ t h2)
      (close_session-IsBalanced workspace_id user_id session_id s x b q (not-false _ c))

expire_session-IsBalanced :
    (workspace_id user_id : ℕ) (session_id : String) (s t : Store)
    → IsBalanced s
    → expire_session workspace_id user_id session_id s ≡ ok t
    → IsBalanced t
unfolding expire_session
expire_session-IsBalanced workspace_id user_id session_id s t b h =
    let (x, q, h1) =
      or_fail-passed (find_first (is_session workspace_id user_id session_id) s.sessions)
        record_not_found _ h in
    elim (Bool-cases (is_closed x.status)) [
      | inl c ↦ subst IsBalanced (ok_injective s t (rw c at h1)) b
      | inr c ↦
          subst IsBalanced (ok_injective _ t (rw c at h1))
            (close_session-IsBalanced workspace_id user_id session_id s x b q c)
    ]

abbrev answer : UploadSession → Store → UploadSession × Store
answer x s = (x, s)

answer_injective :
    (x y : UploadSession) (s t : Store)
    → ◌≡◌ {A = Result Error (UploadSession × Store)} (ok (answer x s)) (ok (answer y t))
    → s ≡ t
answer_injective x y s t h = cc

get_session-IsBalanced :
    (workspace_id user_id : ℕ) (session_id : String) (now : ℕ) (s t : Store) (x : UploadSession)
    → IsBalanced s
    → get_session workspace_id user_id session_id now s ≡ ok (x, t)
    → IsBalanced t
unfolding get_session
get_session-IsBalanced workspace_id user_id session_id now s t x b h =
    let (y, q, h1) =
      or_fail-passed (find_first (is_session workspace_id user_id session_id) s.sessions)
        upload_not_found _ h in
    elim (Bool-cases (not (is_closed y.status) && ltb y.expires_at now)) [
      | inl c ↦
          let (u, e, h2) =
            >>=-eq-ok (expire_session workspace_id user_id session_id s) _ (rw c at h1) in
          subst IsBalanced (answer_injective _ x u t h2)
            (expire_session-IsBalanced workspace_id user_id session_id s u b e)
      | inr c ↦ subst IsBalanced (answer_injective y x s t (rw c at h1)) b
    ]

-- The sessions that a sweep closes are found, open, and different.
pub IsReady : List UploadSession → Store → Type 0
IsReady xs s =
    (x : UploadSession)
    → In x xs
    → (find_first (same_key x) s.sessions ≡ some x) × (is_closed x.status ≡ false)

still-IsReady :
    (x : UploadSession) (xs : List UploadSession) (s : Store)
    → IsReady (x ∷ xs) s
    → ((y : UploadSession) → In y xs → same_key y x ≡ false)
    → IsReady xs (close_session x.workspace_id x.created_by x.id x.total_size s)
unfolding IsReady close_session release_quota
still-IsReady x xs s r d y i =
    let (q, c) = r y (inr i) in
    (
      find_first-update_first (with_status expired) (with_status-KeepsKey expired) y.workspace_id
          y.created_by y.id (same_key x) s.sessions x y (r x (inl refl)).0 (d y i) q,
      c,
    )

expire_each-IsBalanced :
    (xs : List UploadSession) (s : Store)
    → IsBalanced s
    → IsDistinct xs
    → IsReady xs s
    → IsBalanced (expire_each xs s)
unfolding expire_each IsReady
expire_each-IsBalanced [] s b d r = b
expire_each-IsBalanced (x ∷ xs) s b (l, d) r =
    let (q, c) = r x (inl refl) in
    expire_each-IsBalanced xs (close_session x.workspace_id x.created_by x.id x.total_size s)
      (close_session-IsBalanced x.workspace_id x.created_by x.id s x b q c) d
      (still-IsReady x xs s r l)

and_left : (a b : Bool) → (not a && b) ≡ true → a ≡ false
and_left false b h = refl
and_left true b h = absurd (false≢true h)

expire_sessions-IsBalanced :
    (now : ℕ) (s : Store) → IsBalanced s → IsBalanced (expire_sessions now s).1
unfolding expire_sessions IsReady
expire_sessions-IsBalanced now s b =
    expire_each-IsBalanced (select _ s.sessions) s b (select-IsDistinct _ s.sessions b.distinct)
      (λ x i.
        let (j, e) =
          select-In (λ (x : UploadSession). not (is_closed x.status) && leb x.expires_at now) x
            s.sessions i in
        (find_first-In s.sessions x b.distinct j, and_left _ _ e))

finalize_session-IsBalanced :
    (session_id : String) (workspace_id user_id : ℕ) (version : FileVersion) (node : Node)
    (s t : Store)
    → IsBalanced s
    → finalize_session session_id workspace_id user_id version node s ≡ ok t
    → IsBalanced t
finalize_session-IsBalanced session_id workspace_id user_id version node s t b h =
    let (x, u, q, w, p, c) = finalized session_id workspace_id user_id version node s t h in
    let (sessions, workspaces) = placed workspace_id x x.node_id version node s u p in
    subst IsBalanced c (
      complete_session-IsBalanced workspace_id user_id session_id u x
        (transported u sessions workspaces)
        (ap (find_first (is_session workspace_id user_id session_id)) sessions ∙ q)
        (is_writable_open x.status w))
  where
    transported : (u : Store) → u.sessions ≡ s.sessions → u.workspaces ≡ s.workspaces → IsBalanced u
    transported u e f = record {
      balanced = λ w i. b.balanced w (subst (In w) f i) ∙ ap (reserved_for w.id) (sym e);
      distinct = subst IsDistinct (sym e) b.distinct;
    }

-- The operations on sessions; a new session is open.
pub data Step (s t : Store) : Type 0 where
  creates :
      (session : UploadSession)
      → is_closed session.status ≡ false
      → create_session session s ≡ ok t
      → Step s t
  gets :
      (workspace_id user_id : ℕ) (session_id : String) (now : ℕ) (x : UploadSession)
      → get_session workspace_id user_id session_id now s ≡ ok (x, t)
      → Step s t
  marks :
      (workspace_id user_id : ℕ) (session_id : String) (part_no : ℕ) (received : List ℕ)
      → mark_part_received workspace_id user_id session_id part_no s ≡ ok (received, t)
      → Step s t
  cancels :
      (workspace_id user_id : ℕ) (session_id : String)
      → cancel workspace_id user_id session_id s ≡ ok t
      → Step s t
  expires : (now : ℕ) → (expire_sessions now s).1 ≡ t → Step s t
  finalizes :
      (session_id : String) (workspace_id user_id : ℕ) (version : FileVersion) (node : Node)
      → finalize_session session_id workspace_id user_id version node s ≡ ok t
      → Step s t

Step-IsBalanced : (s t : Store) → Step s t → IsBalanced s → IsBalanced t
Step-IsBalanced s t (creates session c h) b = create_session-IsBalanced session s t b c h
Step-IsBalanced s t (gets workspace_id user_id session_id now x h) b =
    get_session-IsBalanced workspace_id user_id session_id now s t x b h
Step-IsBalanced s t (marks workspace_id user_id session_id part_no received h) b =
    mark_part_received-IsBalanced workspace_id user_id session_id part_no s t received b h
Step-IsBalanced s t (cancels workspace_id user_id session_id h) b =
    cancel-IsBalanced workspace_id user_id session_id s t b h
Step-IsBalanced s t (expires now e) b = subst IsBalanced e (expire_sessions-IsBalanced now s b)
Step-IsBalanced s t (finalizes session_id workspace_id user_id version node h) b =
    finalize_session-IsBalanced session_id workspace_id user_id version node s t b h

-- Any number of operations, one after the other.
pub data Run : Store → Store → Type 0 where
  done : (s : Store) → Run s s
  step : (s t u : Store) → Step s t → Run t u → Run s u

-- After any sequence of creations, queries, parts, cancellations, sweeps and completions, the
-- reserved bytes of every workspace are still the sizes of its open sessions, added up, if they
-- were so before; no session keeps a reservation after it is closed, and none gives it back twice.
pub Run-IsBalanced : (s t : Store) → Run s t → IsBalanced s → IsBalanced t
Run-IsBalanced _ _ (done s) b = b
Run-IsBalanced _ _ (step s t u st rest) b = Run-IsBalanced t u rest (Step-IsBalanced s t st b)
