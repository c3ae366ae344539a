-- ===== src/Uploads/Placing.antt =====
-- A finished session of `FinalizeSession` of server/internal/dao/upload.go, and its version.
use Prim.Native.String.{String}
use file_share_manager.Prelude.{
  ok_injective, ℕ, ◌<◌, ◌==◌, eq_option, true, not, Option, none, some, ◌≡◌, refl, sym, ap, ◌∙◌,
  subst, ok, ◌>>=◌, ◌>>◌, guard, >>=-eq-ok, or_fail-passed, guard-passed, any, find_first,
  find_first_sound, length, eq_of_==, arith,
}
use file_share_manager.Nodes.Store.{Node, is_active_file}
use file_share_manager.Files.Model.{inserted_version, FileVersion, latest_version}
use file_share_manager.Files.Newest.{latest_version-append}
use file_share_manager.Uploads.Store.{
  UploadSession, Store, upload_not_found, upload_state, version_conflict, upload_incomplete,
  duplicated_key, is_writable, is_session,
}
use file_share_manager.Uploads.Sessions.{decode_received_chunks}
use file_share_manager.Uploads.Quota.{consume_quota}
use file_share_manager.Uploads.Finalize.{
  append_change, with_version, is_same_version, create_version, with_active_version,
  activate_version, current_version_no, next_version, overwrite_node, with_node, create_node,
  place_version, complete_session, finalize_session,
}

-- The state of a finished session before its quota is consumed.
pub finalized :
    (session_id : String) (workspace_id user_id : ℕ) (version : FileVersion) (node : Node)
    (s t : Store)
    → finalize_session session_id workspace_id user_id version node s ≡ ok t
    → (x : UploadSession) × (u : Store) × (find_first
          (is_session workspace_id user_id session_id)
          s.sessions
        ≡ some x)
      × (is_writable x.status ≡ true)
      × (place_version workspace_id x x.node_id version node s ≡ ok u)
      × (complete_session session_id workspace_id user_id x.total_size u ≡ t)
unfolding finalize_session
finalized session_id workspace_id user_id version node s t h =
    let (x, e, h1) =
      or_fail-passed (find_first (is_session workspace_id user_id session_id) s.sessions)
        upload_not_found _ h in
    let (w, h2) = guard-passed (is_writable x.status) upload_state _ h1 in
    let (received, _, h3) = >>=-eq-ok (decode_received_chunks x.received_chunks) _ h2 in
    let (_, h4) = guard-passed (length received == x.total_chunks) upload_incomplete _ h3 in
    let (u, p, h5) = >>=-eq-ok (place_version workspace_id x x.node_id version node s) _ h4 in
    (x, u, e, w, p, ok_injective _ t h5)

-- A created version is the row at the end of the table.
activated :
    (node_id : ℕ) (version : FileVersion) (s u : Store)
    → activate_version node_id version s ≡ ok u
    → with_active_version node_id s.next_version_id (with_version version s) ≡ u
unfolding activate_version create_version
activated node_id version s u h =
    let (t, c, h1) = >>=-eq-ok (create_version version s) _ h in
    let (_, h2) =
      guard-passed (not (any (is_same_version version) s.versions)) duplicated_key
        (ok (with_version version s)) c in
    ap (with_active_version node_id s.next_version_id) (ok_injective (with_version version s) t h2)
    ∙ ok_injective _ u h1

is_active_file_id : (w : ℕ) (id : ℕ) (n : Node) → is_active_file w id n ≡ true → n.id ≡ id
is_active_file_id w id n h = ground arith

eq_option-some : (o : Option ℕ) (n : ℕ) → eq_option o (some n) ≡ true → o ≡ some n
eq_option-some none n h = cc
eq_option-some (some m) n h = ap some (eq_of_== m n h)

module _ (workspace_id : ℕ) (base_version_no : Option ℕ) (version : FileVersion) (s u : Store) where
  abbrev current : ℕ → ℕ
  current node_id = current_version_no (latest_version workspace_id node_id s.versions)

  -- The store of an overwritten file.
  abbrev overwriting : ℕ → Store
  overwriting node_id = append_change workspace_id "file_version" s.next_version_id "create" (
      with_active_version node_id s.next_version_id
        (with_version (next_version workspace_id node_id (current node_id) version) s))

  behind_guards :
      (node_id : ℕ)
      → (guard (eq_option base_version_no (some (current node_id))) version_conflict
          >> (activate_version node_id
                (next_version workspace_id node_id (current node_id) version)
                s
              >>= λ t. ok (append_change workspace_id "file_version" s.next_version_id "create" t)))
        ≡ ok u
      → (base_version_no ≡ some (current node_id)) × (overwriting node_id ≡ u)
  behind_guards node_id h =
      let (b, h1) = guard-passed _ version_conflict _ h in
      let (t, a, h2) =
        >>=-eq-ok
          (activate_version node_id (next_version workspace_id node_id (current node_id) version) s)
          _ h1 in
      (
        eq_option-some base_version_no (current node_id) b,
        ap (append_change workspace_id "file_version" s.next_version_id "create") (
              activated node_id (next_version workspace_id node_id (current node_id) version) s t a)
            ∙ ok_injective _ u h2,
      )

  overwritten :
      (node_id : ℕ)
      → overwrite_node workspace_id node_id base_version_no version s ≡ ok u
      → (base_version_no ≡ some (current node_id)) × (overwriting node_id ≡ u)
  unfolding overwrite_node
  overwritten node_id h =
      let (n, e, h1) =
        or_fail-passed (find_first (is_active_file workspace_id node_id) s.nodes) upload_not_found _
          h in
      let (_, i) = find_first_sound (is_active_file workspace_id node_id) s.nodes n e in
      subst (λ k. (base_version_no ≡ some (current k)) × (overwriting k ≡ u))
        (is_active_file_id workspace_id node_id n i) (behind_guards n.id h1)

-- The other branch: a new file.
abbrev first_version : ℕ → ℕ → FileVersion → FileVersion
first_version workspace_id node_id version = record version {
  workspace_id = workspace_id;
  node_id = node_id;
  version_no = 1;
}

abbrev new_store : ℕ → Node → Store → Store
new_store workspace_id draft s =
    with_node (record draft { id = s.next_node_id; workspace_id = workspace_id }) s

abbrev logged : ℕ → Store → Store → Store
logged workspace_id s t =
    append_change workspace_id "file_version" s.next_version_id "create"
      (append_change workspace_id "node" s.next_node_id "create" t)

created :
    (workspace_id : ℕ) (version : FileVersion) (draft : Node) (s u : Store)
    → create_node workspace_id version draft s ≡ ok u
    → logged workspace_id s (
        with_active_version s.next_node_id s.next_version_id (
          with_version
            (first_version workspace_id s.next_node_id version)
            (new_store workspace_id draft s)))
      ≡ u
unfolding create_node
created workspace_id version draft s u h =
    let v = first_version workspace_id s.next_node_id version in
    let (t, a, h1) =
      >>=-eq-ok (activate_version s.next_node_id v (new_store workspace_id draft s)) _ h in
    ap (logged workspace_id s) (activated s.next_node_id v (new_store workspace_id draft s) t a)
    ∙ ok_injective (logged workspace_id s t) u h1

-- The tables that placing a version leaves alone.
pub placed :
    (workspace_id : ℕ) (x : UploadSession) (o : Option ℕ) (version : FileVersion) (draft : Node)
    (s u : Store)
    → place_version workspace_id x o version draft s ≡ ok u
    → (u.sessions ≡ s.sessions) × (u.workspaces ≡ s.workspaces)
unfolding place_version append_change
placed workspace_id x none version draft s u h =
    let e = created workspace_id version draft s u h in
    (sym (ap (λ (r : Store). r.sessions) e), sym (ap (λ (r : Store). r.workspaces) e))
placed workspace_id x (some node_id) version draft s u h =
    let (_, e) = overwritten workspace_id x.base_version_no version s u node_id h in
    (sym (ap (λ (r : Store). r.sessions) e), sym (ap (λ (r : Store). r.workspaces) e))

same_session : {a b : UploadSession} {o : Option UploadSession} → o ≡ some a → o ≡ some b → a ≡ b
same_session h k = cc

-- The version of a file behind its newest one, with its identity.
abbrev pub newest : ℕ → ℕ → Store → FileVersion → FileVersion
newest workspace_id node_id s version =
    record (inserted_version (
      next_version workspace_id node_id
        (current_version_no (latest_version workspace_id node_id s.versions)) version)) {
          id = s.next_version_id;
        }

newer :
    (workspace_id node_id : ℕ) (s : Store) (version w : FileVersion)
    → latest_version workspace_id node_id s.versions ≡ some w
    → w.version_no < (newest workspace_id node_id s version).version_no
newer workspace_id node_id s version w e = let c = ap current_version_no e in omega arith

-- An upload for an existing file succeeds only on top of the current version, and its version is the newest
-- one, with the next number.
pub finalize_session-latest :
    (session_id : String) (workspace_id user_id node_id : ℕ) (version : FileVersion) (node : Node)
    (s t : Store) (x : UploadSession)
    → find_first (is_session workspace_id user_id session_id) s.sessions ≡ some x
    → x.node_id ≡ some node_id
    → finalize_session session_id workspace_id user_id version node s ≡ ok t
    → (x.base_version_no
        ≡ some (current_version_no (latest_version workspace_id node_id s.versions)))
      × (latest_version workspace_id node_id t.versions
          ≡ some (newest workspace_id node_id s version))
unfolding place_version complete_session consume_quota append_change
finalize_session-latest session_id workspace_id user_id node_id version node s t x e n h =
    let (y, u, f, _, p, c) = finalized session_id workspace_id user_id version node s t h in
    let q = same_session f e in
    let (base, o) = overwritten workspace_id x.base_version_no version s u node_id (
      ap (λ m. place_version workspace_id x m version node s) (sym n)
      ∙ ap (λ z. place_version workspace_id z z.node_id version node s) (sym q)
      ∙ p) in
    (
      base,
      subst
          (λ vs.
            latest_version workspace_id node_id vs ≡ some (newest workspace_id node_id s version))
          (ap (λ (r : Store). r.versions) o ∙ ap (λ (r : Store). r.versions) c)
          (latest_version-append workspace_id node_id s.versions
            (newest workspace_id node_id s version) refl refl
            (newer workspace_id node_id s version)),
    )
