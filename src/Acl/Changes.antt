-- ===== src/Acl/Changes.antt =====
-- Changing the rules of a node: `GrantPermissionWithAudit`, `RevokePermissionWithAudit` and
-- `ReplaceDirectPermissionsWithAudit` of server/internal/dao/acl.go, and the reads of direct rules.
use Prim.Native.String.{String, compare}
use text.Mathlib.Text.{◌==◌ as str_eq, is_lt}
use file_share_manager.Prelude.{
  ℕ, suc, leb, Bool, true, false, ◌&&◌, ◌||◌, not, List, [], ◌∷◌, ◌++◌, Option, none, some, Result,
  ◌>>◌, guard, any, select, find_first, update_where, sort_by, if◌then◌else◌,
}
use file_share_manager.Authorization.{
  AccessLevel, admin, SubjectType, user, group, Effect, allow, deny, is_allow,
}
use file_share_manager.Nodes.Store.{Event}
use file_share_manager.Acl.Tables.{
  NodeAcl, nothing, of_entry, Tables, AclError, duplicated_key, eq_subject, is_rule, is_direct,
  acl_audit_entry, acl_audit_before, acl_audit_list, increment_workspace_users_auth_version,
  append_acl_change, append_acl_audit,
}

-- `Create` fills a field that is zero with the default of the model, in the row and in the value
-- itself: an empty effect is `allow`.
abbrev pub inserted_effect : Effect → Effect
inserted_effect allow = allow
inserted_effect deny = deny
inserted_effect (Effect.other text) = if str_eq text "" then allow else Effect.other text

-- With `default:true` a rule that should not be handed down is handed down too.
abbrev pub inserted_acl : NodeAcl → NodeAcl
inserted_acl acl = record acl { effect = inserted_effect acl.effect; inherit_to_children = true }

-- `AssignmentColumns`: what a conflicting row takes from the new one.
abbrev pub assigned : NodeAcl → NodeAcl → NodeAcl
assigned acl a = record a {
  effect = acl.effect;
  access_level = acl.access_level;
  inherit_to_children = acl.inherit_to_children;
  created_by = acl.created_by;
  updated_at = acl.updated_at;
}

abbrev pub same_rule : NodeAcl → NodeAcl → Bool
same_rule acl = is_rule acl.workspace_id acl.node_id acl.subject_type acl.subject_id

-- `INSERT … ON DUPLICATE KEY UPDATE` under the unique index of the four columns.
unfoldable pub upsert : NodeAcl → Option NodeAcl → Tables → Tables
upsert acl none t = record t {
  acls = t.acls ++ record (inserted_acl acl) { id = t.next_acl_id } ∷ [];
  next_acl_id = suc t.next_acl_id;
}
upsert acl (some before) t = record t {
  acls = update_where (same_rule acl) (assigned (inserted_acl acl)) t.acls;
}

-- The driver reports the identity of the row that was inserted or updated.
abbrev pub reported : NodeAcl → Option NodeAcl → Tables → NodeAcl
reported acl none t = record (inserted_acl acl) { id = t.next_acl_id }
reported acl (some before) t = record (inserted_acl acl) { id = before.id }

unfoldable pub grant_permission_with_audit :
    (Event → Bool) → NodeAcl → Option Event → Tables → Result AclError Tables
unfolding upsert increment_workspace_users_auth_version append_acl_audit
grant_permission_with_audit accepts acl event t =
    let before = find_first (same_rule acl) t.acls in
    append_acl_audit accepts event (acl_audit_before before)
      (of_entry (acl_audit_entry (reported acl before t)))
      (append_acl_change acl.workspace_id acl.node_id "upsert"
        (increment_workspace_users_auth_version acl.workspace_id (upsert acl before t)))

unfoldable pub revoke_permission_with_audit :
    (Event → Bool) → ℕ → ℕ → SubjectType → ℕ → Option Event → Tables → Result AclError Tables
unfolding increment_workspace_users_auth_version append_acl_audit
revoke_permission_with_audit accepts workspace_id node_id subject_type subject_id event t =
    let before = find_first (is_rule workspace_id node_id subject_type subject_id) t.acls in
    append_acl_audit accepts event (acl_audit_before before) nothing (
      append_acl_change workspace_id node_id "revoke" (
        increment_workspace_users_auth_version workspace_id (record t {
          acls = select (λ a. not (is_rule workspace_id node_id subject_type subject_id a)) t.acls;
        })))

-- The loop that fills in the columns of the new rows; each takes the next identity.
unfoldable pub stamped : ℕ → ℕ → ℕ → ℕ → ℕ → List NodeAcl → List NodeAcl
stamped id workspace_id node_id actor_id now [] = []
stamped id workspace_id node_id actor_id now (a ∷ entries) =
    record (inserted_acl a) {
      id = id;
      workspace_id = workspace_id;
      node_id = node_id;
      created_by = actor_id;
      created_at = now;
      updated_at = now;
    }
    ∷ stamped (suc id) workspace_id node_id actor_id now entries

-- Two rows for one subject violate the unique index.
unfoldable pub has_duplicate : List NodeAcl → Bool
has_duplicate [] = false
has_duplicate (a ∷ entries) = any (same_rule a) entries || has_duplicate entries

abbrev pub after_rows : ℕ → List NodeAcl → ℕ
after_rows id [] = id
after_rows id (a ∷ rows) = after_rows (suc id) rows

abbrev pub subject_text : SubjectType → String
subject_text user = "user"
subject_text group = "group"
subject_text (SubjectType.other text) = text

-- `ORDER BY subject_type ASC, subject_id ASC`.
abbrev pub by_subject : NodeAcl → NodeAcl → Bool
by_subject x y =
    if eq_subject x.subject_type y.subject_type
    then leb x.subject_id y.subject_id
    else is_lt (compare (subject_text x.subject_type) (subject_text y.subject_type))

unfoldable pub list_direct_permissions : ℕ → ℕ → Tables → List NodeAcl
list_direct_permissions workspace_id node_id t =
    sort_by by_subject (select (is_direct workspace_id node_id) t.acls)

-- The old rules of the node are deleted before the new ones are created.
unfoldable pub replace_direct_permissions_with_audit :
    (Event → Bool) → ℕ → ℕ → ℕ → ℕ → List NodeAcl → Option Event → Tables → Result AclError Tables
unfolding stamped has_duplicate list_direct_permissions increment_workspace_users_auth_version
    append_acl_audit
replace_direct_permissions_with_audit accepts workspace_id node_id actor_id now entries event t = do
  let rows = stamped t.next_acl_id workspace_id node_id actor_id now entries
  guard (not (has_duplicate rows)) duplicated_key
  append_acl_audit accepts event (acl_audit_list (list_direct_permissions workspace_id node_id t))
      (acl_audit_list rows)
      (append_acl_change workspace_id node_id "replace" (
        increment_workspace_users_auth_version workspace_id (record t {
          acls = select (λ a. not (is_direct workspace_id node_id a)) t.acls ++ rows;
          next_acl_id = after_rows t.next_acl_id rows;
        })))

abbrev pub is_admin : AccessLevel → Bool
is_admin admin = true
is_admin _ = false

unfoldable pub has_direct_allow_admin : ℕ → ℕ → Tables → Bool
has_direct_allow_admin workspace_id node_id t =
    any (λ a. is_direct workspace_id node_id a && is_allow a.effect && is_admin a.access_level)
      t.acls
