-- ===== src/Nodes/Trash/Subtrees.antt =====
-- Trashing and subtrees: `TrashSubtreeWithAudit` of server/internal/dao/node.go.
use file_share_manager.Prelude.{
  ℕ, ◌==◌, ==_refl, Bool, true, false, ◌&&◌, false≢true, List, Option, some, ◌≡◌, refl, sym, ap,
  ◌∙◌, subst, inl, inr, ok, or_fail-passed, guard-passed, any, update_where, update_where-In, In,
  Bool-cases,
}
use file_share_manager.Nodes.Store.{
  Node, NodeClosure, Event, NodeStatus, active, trashed, Store, record_not_found, is_active,
  node_in, append_change,
}
use file_share_manager.Nodes.Closure.{parent_of, IsNode, IsClosed, up-any}
use file_share_manager.Nodes.Paths.{up}
use file_share_manager.Nodes.MoveLaws.{append_node_audit-tables}
use file_share_manager.Nodes.Trash.{in_subtree, trashed_by, is_trashable, trash_subtree_with_audit}

not_trashable :
    (workspace_id node_id : ℕ) (closures : List NodeClosure) (m : Node)
    → m.workspace_id ≡ workspace_id
    → in_subtree node_id closures m.id ≡ true
    → is_trashable workspace_id node_id closures m ≡ false
    → m.status ≡ trashed
not_trashable workspace_id node_id closures m w i h = status_of m.status (rw i at h2)
  where
    h2 : (in_subtree node_id closures m.id && is_active m.status) ≡ false
    h2 = rw (ap (λ k. k == workspace_id) w ∙ ==_refl workspace_id) at h

    status_of : (s : NodeStatus) → is_active s ≡ false → s ≡ trashed
    status_of active k = absurd (false≢true (sym k))
    status_of trashed k = refl

-- Where the closure table is exact: after a folder is trashed, every node of its workspace that stands under it, at any depth, and the
-- folder itself, is in the trash; the closure table is as before.
pub trash_subtree_with_audit-trashed :
    (accepts : Event → Bool) (workspace_id node_id actor_id now : ℕ) (event : Option Event)
    (s t : Store)
    → IsClosed s.nodes s.closures
    → trash_subtree_with_audit accepts workspace_id node_id actor_id now event s ≡ ok t
    → (t.closures ≡ s.closures)
      × ((n : Node) (i : ℕ)
          → In n t.nodes
          → n.workspace_id ≡ workspace_id
          → IsNode s.nodes n.id
          → up (parent_of s.nodes) i n.id ≡ some node_id
          → n.status ≡ trashed)
unfolding trash_subtree_with_audit append_change
trash_subtree_with_audit-trashed accepts workspace_id node_id actor_id now event s t c h =
    let (node, _, h1) =
      or_fail-passed (node_in workspace_id node_id s.nodes) record_not_found _ h in
    let (_, h2) =
      guard-passed (any (is_trashable workspace_id node_id s.closures) s.nodes) record_not_found _
        h1 in
    let (nodes, closures) = append_node_audit-tables accepts event _ _ _ _ t h2 in
    (
      closures,
      λ n i j w e p. all_trashed n j w (up-any s.nodes s.closures c node_id n.id i e p) nodes,
    )
  where
    all_trashed :
        (n : Node)
        → In n t.nodes
        → n.workspace_id ≡ workspace_id
        → in_subtree node_id s.closures n.id ≡ true
        → t.nodes
          ≡ update_where
              (is_trashable workspace_id node_id s.closures)
              (trashed_by actor_id now)
              s.nodes
        → n.status ≡ trashed
    all_trashed n j w u q =
        let (m, k, e) =
          update_where-In (is_trashable workspace_id node_id s.closures) (trashed_by actor_id now) n
            s.nodes (subst (In n) q j) in
        elim (Bool-cases (is_trashable workspace_id node_id s.closures m)) [
          | inl b ↦ ap (λ (x : Node). x.status) (rw b at e)
          | inr b ↦
              let d = rw b at e in
              ap (λ (x : Node). x.status) d
              ∙ not_trashable workspace_id node_id s.closures m
                  (sym (ap (λ (x : Node). x.workspace_id) d) ∙ w)
                  (ap (in_subtree node_id s.closures) (sym (ap (λ (x : Node). x.id) d)) ∙ u) b
        ]
