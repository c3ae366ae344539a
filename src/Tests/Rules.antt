-- ===== src/Tests/Rules.antt =====
-- A folder with a file in it, a rule on the folder, and a user who reads by it.
use file_share_manager.Prelude.{
  ℕ, List, ◌≢◌, leb, ◌≡◌, ◌↔◌, refl, Bool, true, false, ◌&&◌, [], ◌∷◌, none, some, ok, In, inl, inr,
  arith,
}
use file_share_manager.Authorization.{
  read, read_write, admin, user, group, allow, deny, Effect, EffectiveAclEntry, access_rank,
  is_allow, resolve,
}
use file_share_manager.Authorization.Levels.{level_rank}
use file_share_manager.Authorization.Order.{resolve-same}
use file_share_manager.Nodes.Store.{Node, NodeClosure, folder, file, inherit, active, Event}
use file_share_manager.Acl.Tables.{
  NodeAcl, Tables, is_direct, append_acl_audit, increment_workspace_users_auth_version,
}
use file_share_manager.Acl.Effective.{list_effective_entries}
use file_share_manager.Acl.Reading.{IsEffective, list_effective_entries_iff}
use file_share_manager.Acl.Changes.{
  inserted_effect, upsert, stamped, has_duplicate, list_direct_permissions,
  grant_permission_with_audit, revoke_permission_with_audit, replace_direct_permissions_with_audit,
}
use file_share_manager.Acl.Service.{
  Actor, authorize, authorize_with_state, node_access_levels, is_privileged,
}
use file_share_manager.Acl.Agreement.{
  IsAuthorized, authorize_with_state_iff, node_access_levels-authorize,
}
use file_share_manager.Acl.Granting.{grant_permission_with_audit-authorize}
use file_share_manager.Authorization.Runs.{IsFor}
use file_share_manager.Acl.Revoking.{revoke_permission_with_audit-list_effective_entries}
use file_share_manager.Acl.Replacing.{replace_direct_permissions_with_audit-direct}

abbrev any_event : Event → Bool
any_event event = true

abbrev docs : Node
docs = record {
  id = 1;
  workspace_id = 4;
  parent_id = none;
  name = "docs";
  normalized_name = "docs";
  node_type = folder;
  active_version = none;
  inherit_mode = inherit;
  status = active;
  trashed_at = none;
  created_by = 9;
  updated_by = 9;
}

abbrev plan : Node
plan = record docs {
  id = 2;
  parent_id = some 1;
  name = "plan";
  normalized_name = "plan";
  node_type = file;
}

abbrev rule : NodeAcl
rule = record {
  id = 1;
  workspace_id = 4;
  node_id = 1;
  subject_type = user;
  subject_id = 7;
  effect = allow;
  access_level = read;
  inherit_to_children = true;
  created_by = 9;
  created_at = 100;
  updated_at = 100;
}

abbrev tables : Tables
tables = record {
  nodes = docs ∷ plan ∷ [];
  closures =
      record { ancestor_id = 1; descendant_id = 1; depth = 0 }
      ∷ record { ancestor_id = 2; descendant_id = 2; depth = 0 }
      ∷ record { ancestor_id = 1; descendant_id = 2; depth = 1 }
      ∷ [];
  acls = rule ∷ [];
  groups = [];
  group_members = [];
  memberships = [];
  users = [];
  changes = [];
  audits = [];
  next_acl_id = 2;
}

abbrev ann : Actor
ann = record { user_id = 7; workspace_id = 4; is_super_admin = false; workspace_role = "member" }

authorize_with_state_iff_example :
    (authorize_with_state ann 2 read active tables ≡ ok true)
    ↔ IsAuthorized ann 2 read active tables
authorize_with_state_iff_example = authorize_with_state_iff ann 2 read active tables

abbrev handed_down : EffectiveAclEntry
handed_down = record {
  depth = 1;
  subject_type = user;
  subject_id = 7;
  effect = allow;
  access_level = read;
}

list_effective_entries_iff_example :
    In handed_down (list_effective_entries 4 2 7 [] tables)
    ↔ IsEffective 4 2 7 [] tables handed_down
list_effective_entries_iff_example = list_effective_entries_iff 4 2 7 [] tables handed_down

node_access_levels-authorize_example :
    authorize ann 2 read tables
    ≡ ok (leb (access_rank read) (level_rank (node_access_levels ann (1 ∷ 2 ∷ []) tables 2)))
node_access_levels-authorize_example =
    node_access_levels-authorize ann (1 ∷ 2 ∷ []) tables 2 read plan refl refl refl (inl refl)

abbrev denial : NodeAcl
denial = record rule { id = 0; node_id = 2; effect = deny }

abbrev denied : Tables
denied = record tables {
  acls = rule ∷ record denial { id = 2 } ∷ [];
  changes =
      record { workspace_id = 4; entity_type = "node_acl"; entity_id = 2; operation = "upsert" }
      ∷ [];
  next_acl_id = 3;
}

denies : grant_permission_with_audit any_event denial none tables ≡ ok denied
unfolding grant_permission_with_audit upsert append_acl_audit increment_workspace_users_auth_version
denies = refl

plain_member : is_privileged ann ≡ false
unfolding is_privileged
plain_member = refl

own_rows : (c : NodeClosure) → In c tables.closures → c.depth ≡ 0 → c.ancestor_id ≡ c.descendant_id
own_rows c i d = ground arith

grant_permission_with_audit-authorize_example :
    authorize ann 2 read denied
    ≡ ok (
        is_allow (inserted_effect denial.effect)
        && leb (access_rank read) (access_rank denial.access_level))
grant_permission_with_audit-authorize_example =
    grant_permission_with_audit-authorize any_event denial none tables denied ann plan read denies
      refl refl refl plain_member (inr (inl refl)) own_rows refl refl

abbrev replaced : Tables
replaced = record tables {
  acls = record rule { id = 2; effect = deny; created_at = 200; updated_at = 200 } ∷ [];
  changes =
      record { workspace_id = 4; entity_type = "node_acl"; entity_id = 1; operation = "replace" }
      ∷ [];
  next_acl_id = 3;
}

replaces :
    replace_direct_permissions_with_audit any_event 4 1 9 200
      (record rule { effect = deny; inherit_to_children = false } ∷ [])
      none
      tables
    ≡ ok replaced
unfolding replace_direct_permissions_with_audit stamped has_duplicate list_direct_permissions
    append_acl_audit increment_workspace_users_auth_version
replaces = refl

replace_direct_permissions_with_audit-direct_example :
    ((a : NodeAcl)
      → In a (list_direct_permissions 4 1 replaced)
        ↔ In a
            (stamped 2 4 1 9 200 (record rule { effect = deny; inherit_to_children = false } ∷ [])))
    × ((a : NodeAcl)
        → In a (list_direct_permissions 4 1 replaced)
        → (a.inherit_to_children ≡ true) × (a.effect ≢ Effect.other ""))
    × ((a : NodeAcl) → (is_direct 4 1 a ≡ false) → In a replaced.acls ↔ In a tables.acls)
replace_direct_permissions_with_audit-direct_example =
    replace_direct_permissions_with_audit-direct any_event 4 1 9 200
      (record rule { effect = deny; inherit_to_children = false } ∷ []) none tables replaced
      replaces

abbrev revoked : Tables
revoked = record tables {
  acls = [];
  changes =
      record { workspace_id = 4; entity_type = "node_acl"; entity_id = 1; operation = "revoke" }
      ∷ [];
}

revokes : revoke_permission_with_audit any_event 4 1 user 7 none tables ≡ ok revoked
unfolding revoke_permission_with_audit append_acl_audit increment_workspace_users_auth_version
revokes = refl

own_row_iff :
    (c : NodeClosure) → In c tables.closures → (c.depth ≡ 0) ↔ (c.ancestor_id ≡ c.descendant_id)
own_row_iff c i = ground arith

revoke_permission_with_audit-list_effective_entries_example :
    ((groups : List ℕ) (x : EffectiveAclEntry)
      → In x (list_effective_entries 4 1 7 groups revoked)
        ↔ In x (list_effective_entries 4 1 7 groups tables) × ¬ (IsFor user x × (x.depth ≡ 0)))
    × ((m other : ℕ) (groups : List ℕ) (x : EffectiveAclEntry)
        → other ≢ 7
        → In x (list_effective_entries 4 m other groups revoked)
          ↔ In x (list_effective_entries 4 m other groups tables))
revoke_permission_with_audit-list_effective_entries_example =
    revoke_permission_with_audit-list_effective_entries any_event 4 1 7 none tables revoked revokes
      own_row_iff

abbrev staff : EffectiveAclEntry
staff = record {
  depth = 1;
  subject_type = group;
  subject_id = 3;
  effect = allow;
  access_level = admin;
}

swapped :
    (x : EffectiveAclEntry) → In x (handed_down ∷ staff ∷ []) ↔ In x (staff ∷ handed_down ∷ [])
swapped x = (λ h. ground arith, λ h. ground arith)

resolve-same_example :
    resolve (handed_down ∷ staff ∷ []) read_write ≡ resolve (staff ∷ handed_down ∷ []) read_write
resolve-same_example =
    resolve-same (handed_down ∷ staff ∷ []) (staff ∷ handed_down ∷ []) read_write
      (λ x h. ground arith, (λ x h. absurd h, tt)) (λ x h. ground arith, (λ x h. absurd h, tt))
      swapped
