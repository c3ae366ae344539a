-- ===== src/Acl/Agreement.antt =====
-- The checks of server/internal/service/authorization/service.go at one node, their independent
-- reading, and the levels of many nodes.
use file_share_manager.Prelude.{
  ℕ, ◌==◌, leb, ◌≡◌, ◌↔◌, refl, sym, ap, ◌∙◌, ◌⊎◌, inl, inr, Bool, true, List, some, arith, Result,
  ok, or_fail-passed, guard-passed, ok_injective, any, Bool-cases, if◌then◌else◌,
}
use file_share_manager.Authorization.{
  AccessLevel, admin, access_rank, resolve, resolve_access_level,
}
use file_share_manager.Authorization.Granted.{IsGranted}
use file_share_manager.Authorization.Decision.{resolve_iff}
use file_share_manager.Authorization.Levels.{IsKnown, level_rank, resolve-level_rank}
use file_share_manager.Authorization.Order.{resolve_access_level-same}
use file_share_manager.Nodes.Store.{Node, NodeStatus, is_active, node_in}
use file_share_manager.Acl.Tables.{Tables}
use file_share_manager.Acl.Effective.{list_effective_entries_for_nodes}
use file_share_manager.Acl.Reading.{list_effective_entries_iff, list_effective_entries-IsByDepth}
use file_share_manager.Acl.Bulk.{
  list_effective_entries_for_nodes-IsByDepth, list_effective_entries_for_nodes_iff,
}
use file_share_manager.Acl.Service.{
  Actor, AccessError, node_not_found, is_privileged, list_user_group_ids, has_status, entries_of,
  authorize_with_state, authorize, node_access_levels,
}

-- Who may act on the node: it exists in the actor's workspace in the expected state, and the actor is
-- privileged or the rules that apply grant the level.
pub record IsAuthorized (actor : Actor) (node_id : ℕ) (required : AccessLevel) (status : NodeStatus)
    (t : Tables) : Type 0 where
  pub node : Node
  pub found : node_in actor.workspace_id node_id t.nodes ≡ some node
  pub state : has_status status node.status ≡ true
  pub allowed : (is_privileged actor ≡ true) ⊎ IsGranted (entries_of actor node_id t) required

abbrev answer : Bool → Bool → Result AccessError Bool
answer privileged resolved = if privileged then ok true else ok resolved

-- A check succeeds exactly when the node exists in the actor's workspace with the expected status,
-- and the actor is an administrator or the rules that the query delivers grant the level.
pub authorize_with_state_iff :
    (actor : Actor) (id : ℕ) (r : AccessLevel) (status : NodeStatus) (t : Tables)
    → (authorize_with_state actor id r status t ≡ ok true) ↔ IsAuthorized actor id r status t
unfolding authorize_with_state
authorize_with_state_iff actor id r status t = (sound, complete)
  where
    sound : authorize_with_state actor id r status t ≡ ok true → IsAuthorized actor id r status t
    sound h =
        let (node, f, k) =
          or_fail-passed (node_in actor.workspace_id id t.nodes) node_not_found _ h in
        let (s, a) = guard-passed (has_status status node.status) node_not_found _ k in
        record {
          node = node;
          found = f;
          state = s;
          allowed = elim (Bool-cases (is_privileged actor)) [
            | inl p ↦ inl p
            | inr p ↦ inr (
                (resolve_iff (entries_of actor id t) r (
                    list_effective_entries-IsByDepth actor.workspace_id id actor.user_id
                      (list_user_group_ids actor.workspace_id actor.user_id t) t)).0
                  (ok_injective (resolve (entries_of actor id t) r) true (rw p at a)))
          ];
        }

    complete : IsAuthorized actor id r status t → authorize_with_state actor id r status t ≡ ok true
    complete g = rw (g.found, g.state) (go g.allowed)
      where
        go :
            (is_privileged actor ≡ true) ⊎ IsGranted (entries_of actor id t) r
            → answer (is_privileged actor) (resolve (entries_of actor id t) r) ≡ ok true
        go (inl p) = rw p refl
        go (inr k) = elim (Bool-cases (is_privileged actor)) [
          | inl p ↦ rw p refl
          | inr p ↦ rw p (
              ap ok (
                (resolve_iff (entries_of actor id t) r (
                    list_effective_entries-IsByDepth actor.workspace_id id actor.user_id
                      (list_user_group_ids actor.workspace_id actor.user_id t) t)).1
                  k))
        ]

known_rank : (r : AccessLevel) → IsKnown r → leb (access_rank r) (level_rank (some admin)) ≡ true
unfolding access_rank level_rank
known_rank r k = ground arith

-- For an active node that was asked for, the level that `NodeAccessLevels` reports is the one that
-- the check of the single node enforces: a check for one of the three levels answers yes exactly
-- when the level ranks no higher than the reported one.
pub node_access_levels-authorize :
    (actor : Actor) (ids : List ℕ) (t : Tables) (id : ℕ) (r : AccessLevel) (node : Node)
    → any (λ k. id == k) ids ≡ true
    → node_in actor.workspace_id id t.nodes ≡ some node
    → is_active node.status ≡ true
    → IsKnown r
    → authorize actor id r t
      ≡ ok (leb (access_rank r) (level_rank (node_access_levels actor ids t id)))
unfolding authorize authorize_with_state node_access_levels
node_access_levels-authorize actor ids t id r node asked found state known =
    rw (found, state, asked)
      (elim (Bool-cases (is_privileged actor)) [
        | inl p ↦ rw p (ap ok (sym (known_rank r known)))
        | inr p ↦ rw p (
            ap ok (
              resolve-level_rank (entries_of actor id t) r known
              ∙ ap (λ l. leb (access_rank r) (level_rank l)) same))
      ])
  where
    same :
        resolve_access_level (entries_of actor id t)
        ≡ resolve_access_level (
            list_effective_entries_for_nodes actor.workspace_id actor.user_id
              (list_user_group_ids actor.workspace_id actor.user_id t)
              ids
              t
              id)
    same =
        resolve_access_level-same (entries_of actor id t)
          (list_effective_entries_for_nodes actor.workspace_id actor.user_id
            (list_user_group_ids actor.workspace_id actor.user_id t) ids t id)
          (list_effective_entries-IsByDepth actor.workspace_id id actor.user_id
            (list_user_group_ids actor.workspace_id actor.user_id t) t)
          (list_effective_entries_for_nodes-IsByDepth actor.workspace_id actor.user_id
            (list_user_group_ids actor.workspace_id actor.user_id t) ids t id asked)
          (λ x. (
            λ i.
                (list_effective_entries_for_nodes_iff actor.workspace_id actor.user_id
                    (list_user_group_ids actor.workspace_id actor.user_id t) ids t id asked x).1
                  ((list_effective_entries_iff actor.workspace_id id actor.user_id
                      (list_user_group_ids actor.workspace_id actor.user_id t) t x).0
                    i),
            λ i.
                (list_effective_entries_iff actor.workspace_id id actor.user_id
                    (list_user_group_ids actor.workspace_id actor.user_id t) t x).1
                  ((list_effective_entries_for_nodes_iff actor.workspace_id actor.user_id
                      (list_user_group_ids actor.workspace_id actor.user_id t) ids t id asked x).0
                    i),
          ))
