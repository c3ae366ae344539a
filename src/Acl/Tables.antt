-- ===== src/Acl/Tables.antt =====
-- The tables that server/internal/dao/acl.go reads and writes, and the records of a change of rules:
-- `NodeACL` of server/internal/model/node.go, the members and groups of a workspace, and the version
-- of a user's sessions (server/internal/dao/change_log.go).
use Prim.Native.String.{String}
use text.Mathlib.Text.{◌==◌ as str_eq}
use file_share_manager.Prelude.{
  ℕ, suc, ◌==◌, Bool, true, false, ◌&&◌, List, [], ◌∷◌, ◌++◌, map, Option, none, some, Result, ok,
  ◌>>◌, guard, any, select, update_where,
}
use file_share_manager.Authorization.{AccessLevel, SubjectType, user, group, Effect}
use file_share_manager.Nodes.Store.{Node, NodeClosure, Change, Event}

pub record NodeAcl : Type 0 where
  pub id : ℕ
  pub workspace_id : ℕ
  pub node_id : ℕ
  pub subject_type : SubjectType
  pub subject_id : ℕ
  pub effect : Effect
  pub access_level : AccessLevel
  pub inherit_to_children : Bool
  pub created_by : ℕ
  pub created_at : ℕ
  pub updated_at : ℕ

pub record UserGroup : Type 0 where
  pub id : ℕ
  pub workspace_id : ℕ

pub record UserGroupMember : Type 0 where
  pub group_id : ℕ
  pub user_id : ℕ

pub record WorkspaceMembership : Type 0 where
  pub workspace_id : ℕ
  pub user_id : ℕ

pub record User : Type 0 where
  pub id : ℕ
  pub auth_version : ℕ

-- `aclAuditEntry`.
pub record AclAuditEntry : Type 0 where
  pub id : ℕ
  pub workspace_id : ℕ
  pub node_id : ℕ
  pub subject_type : SubjectType
  pub subject_id : ℕ
  pub effect : Effect
  pub access_level : AccessLevel
  pub inherit_to_children : Bool
  pub created_by : ℕ

-- What an audit record holds before or after a change.
pub data AclSnapshot : Type 0 where
  nothing : AclSnapshot
  of_entry : AclAuditEntry → AclSnapshot
  of_list : List AclAuditEntry → AclSnapshot

pub record AclAudit : Type 0 where
  pub event : Event
  pub before : AclSnapshot
  pub after : AclSnapshot

pub record Tables : Type 0 where
  pub nodes : List Node
  pub closures : List NodeClosure
  pub acls : List NodeAcl
  pub groups : List UserGroup
  pub group_members : List UserGroupMember
  pub memberships : List WorkspaceMembership
  pub users : List User
  pub changes : List Change
  pub audits : List AclAudit
  -- The next value of the identity column of `node_acls`.
  pub next_acl_id : ℕ

pub data AclError : Type 0 where
  duplicated_key audit_refused : AclError

-- Equality of the texts that name the kinds of subjects.
abbrev pub eq_subject : SubjectType → SubjectType → Bool
eq_subject user user = true
eq_subject group group = true
eq_subject (SubjectType.other a) (SubjectType.other b) = str_eq a b
eq_subject _ _ = false

-- `workspace_id = ? AND node_id = ? AND subject_type = ? AND subject_id = ?`.
abbrev pub is_rule : ℕ → ℕ → SubjectType → ℕ → NodeAcl → Bool
is_rule workspace_id node_id subject_type subject_id a =
    a.workspace_id == workspace_id
    && a.node_id == node_id
    && eq_subject a.subject_type subject_type
    && a.subject_id == subject_id

-- `workspace_id = ? AND node_id = ?`.
abbrev pub is_direct : ℕ → ℕ → NodeAcl → Bool
is_direct workspace_id node_id a = a.workspace_id == workspace_id && a.node_id == node_id

abbrev pub acl_audit_entry : NodeAcl → AclAuditEntry
acl_audit_entry a = record {
  id = a.id;
  workspace_id = a.workspace_id;
  node_id = a.node_id;
  subject_type = a.subject_type;
  subject_id = a.subject_id;
  effect = a.effect;
  access_level = a.access_level;
  inherit_to_children = a.inherit_to_children;
  created_by = a.created_by;
}

-- `aclAuditBefore`, of the row that the query found.
abbrev pub acl_audit_before : Option NodeAcl → AclSnapshot
acl_audit_before none = nothing
acl_audit_before (some a) = of_entry (acl_audit_entry a)

abbrev pub acl_audit_list : List NodeAcl → AclSnapshot
acl_audit_list rows = of_list (map acl_audit_entry rows)

-- `incrementUsersAuthVersion`.
abbrev pub increment_users_auth_version : List ℕ → List User → List User
increment_users_auth_version ids =
    update_where (λ (u : User). any (λ id. u.id == id) ids)
      (λ u. record u { auth_version = suc u.auth_version })

-- Signs every member of the workspace out of the sessions that were opened under the old rules.
unfoldable pub increment_workspace_users_auth_version : ℕ → Tables → Tables
increment_workspace_users_auth_version workspace_id t = record t {
  users =
      increment_users_auth_version
        (map (λ (m : WorkspaceMembership). m.user_id)
          (select (λ (m : WorkspaceMembership). m.workspace_id == workspace_id) t.memberships))
        t.users;
}

-- `appendChange`.
abbrev pub append_acl_change : ℕ → ℕ → String → Tables → Tables
append_acl_change workspace_id node_id operation t = record t {
  changes =
      t.changes
      ++ record {
        workspace_id = workspace_id;
        entity_type = "node_acl";
        entity_id = node_id;
        operation = operation;
      }
        ∷ [];
}

-- `appendAuditEvent`; `accepts` tells whether the audit log takes the event.
unfoldable pub append_acl_audit :
    (Event → Bool) → Option Event → AclSnapshot → AclSnapshot → Tables → Result AclError Tables
append_acl_audit accepts none before after t = ok t
append_acl_audit accepts (some event) before after t = do
  guard (accepts event) audit_refused
  ok (record t {
    audits = t.audits ++ record { event = event; before = before; after = after } ∷ [];
  })
