-- ===== src/Acl/Service.antt =====
-- The checks of server/internal/service/authorization/service.go, and the groups of a user
-- (`ListUserGroupIDs` of server/internal/dao/group.go).
use Prim.Native.String.{String}
use text.Mathlib.Text.{◌==◌ as str_eq}
use file_share_manager.Prelude.{
  ℕ, ◌==◌, Bool, true, false, ◌&&◌, ◌||◌, List, Option, none, some, Result, ok, ◌>>=◌, ◌>>◌, guard,
  or_fail, any, join, if◌then◌else◌,
}
use file_share_manager.Authorization.{
  AccessLevel, EffectiveAclEntry, read, read_write, admin, resolve, resolve_access_level,
}
use file_share_manager.Nodes.Store.{NodeStatus, active, trashed, is_active, is_trashed, node_in}
use file_share_manager.Acl.Tables.{UserGroup, UserGroupMember, Tables}
use file_share_manager.Acl.Effective.{list_effective_entries, list_effective_entries_for_nodes}

pub record Actor : Type 0 where
  pub user_id : ℕ
  pub workspace_id : ℕ
  pub is_super_admin : Bool
  pub workspace_role : String

pub data AccessError : Type 0 where
  node_not_found : AccessError

unfoldable pub is_privileged : Actor → Bool
is_privileged actor = actor.is_super_admin || str_eq actor.workspace_role "workspace_admin"

unfoldable pub list_user_group_ids : ℕ → ℕ → Tables → List ℕ
list_user_group_ids workspace_id user_id t =
    join
      (λ (g : UserGroup) (m : UserGroupMember).
        m.group_id == g.id && g.workspace_id == workspace_id && m.user_id == user_id)
      (λ g m. g.id) t.groups t.group_members

abbrev pub has_status : NodeStatus → NodeStatus → Bool
has_status active status = is_active status
has_status trashed status = is_trashed status

-- The rules that the checks read for an actor at a node.
abbrev pub entries_of : Actor → ℕ → Tables → List EffectiveAclEntry
entries_of actor node_id t =
    list_effective_entries actor.workspace_id node_id actor.user_id
      (list_user_group_ids actor.workspace_id actor.user_id t) t

unfoldable pub authorize_with_state :
    Actor → ℕ → AccessLevel → NodeStatus → Tables → Result AccessError Bool
unfolding is_privileged list_user_group_ids
authorize_with_state actor node_id required expected_status t = do
  node ← or_fail (node_in actor.workspace_id node_id t.nodes) node_not_found
  guard (has_status expected_status node.status) node_not_found
  if is_privileged actor then ok true else ok (resolve (entries_of actor node_id t) required)

unfoldable pub authorize : Actor → ℕ → AccessLevel → Tables → Result AccessError Bool
authorize actor node_id required t = authorize_with_state actor node_id required active t

unfoldable pub can_read : Actor → ℕ → Tables → Result AccessError Bool
can_read actor node_id t = authorize actor node_id read t

unfoldable pub can_write : Actor → ℕ → Tables → Result AccessError Bool
can_write actor node_id t = authorize actor node_id read_write t

unfoldable pub can_manage_acl : Actor → ℕ → Tables → Result AccessError Bool
can_manage_acl actor node_id t = authorize actor node_id admin t

unfoldable pub can_create_share : Actor → ℕ → Tables → Result AccessError Bool
can_create_share actor node_id t = authorize actor node_id read_write t

unfoldable pub can_restore : Actor → ℕ → Tables → Result AccessError Bool
can_restore actor node_id t = authorize_with_state actor node_id read_write trashed t

-- The map of levels; a key that is not there reads as the empty text, as `none` does.
unfoldable pub node_access_levels : Actor → List ℕ → Tables → ℕ → Option AccessLevel
unfolding is_privileged list_user_group_ids
node_access_levels actor node_ids t node_id =
    let entries =
      list_effective_entries_for_nodes actor.workspace_id actor.user_id
        (list_user_group_ids actor.workspace_id actor.user_id t) node_ids t node_id in
    if any (λ id. node_id == id) node_ids
    then (if is_privileged actor then some admin else resolve_access_level entries)
    else none

abbrev pub is_some {ℓ} : {A : Type ℓ} → Option A → Bool
is_some none = false
is_some (some _) = true

unfoldable pub readable_node_ids : Actor → List ℕ → Tables → ℕ → Bool
unfolding node_access_levels
readable_node_ids actor node_ids t node_id = is_some (node_access_levels actor node_ids t node_id)
