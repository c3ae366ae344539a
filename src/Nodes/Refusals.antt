-- ===== src/Nodes/Refusals.antt =====
-- The moves that `MoveWithAudit` of server/internal/dao/node.go refuses as invalid.
use file_share_manager.Prelude.{
  ℕ, ◌==◌, eq_of_==, eq_option, ◌≡◌, ◌≢◌, ◌↔◌, refl, ap, subst, inl, inr, Bool, true, false, ◌&&◌,
  ◌||◌, not, Option, none, some, Result, ok, err, ◌>>◌, guard, arith, any, find_first,
  find_first_sound, Bool-cases, if◌then◌else◌,
}
use file_share_manager.Nodes.Store.{
  Node, Event, Store, Error, invalid_move, active, is_active, is_folder, node_in, append_node_audit,
}
use file_share_manager.Nodes.Tree.{check_target, relocate, move_with_audit}
use file_share_manager.Nodes.Paths.{up}
use file_share_manager.Nodes.Closure.{parent_of, IsNode, IsClosed, IsNode-of_In, any-up, up-any}
use file_share_manager.Nodes.MoveLaws.{target_id, or_right}

module _ (workspace_id n q : ℕ) (s : Store) where
  abbrev blocked : Bool
  blocked = q == n || any (λ c. c.ancestor_id == n && c.descendant_id == q) s.closures

  check_target-blocked :
      (parent : Node)
      → find_first
          (λ m.
            m.workspace_id == workspace_id
            && m.id == q
            && is_folder m.node_type
            && is_active m.status)
          s.nodes
        ≡ some parent
      → check_target workspace_id n (some q) s ≡ (if blocked then err invalid_move else ok tt)
  unfolding check_target
  check_target-blocked parent h = elim (Bool-cases (q == n)) [
    | inl e ↦ rw e refl
    | inr e ↦ rw (e, h) (tail (any (λ c. c.ancestor_id == n && c.descendant_id == q) s.closures))
  ]
    where
      tail :
          (b : Bool)
          → ◌≡◌ {A = Result Error (Unit {0})}
              (guard (not b) invalid_move)
              (if b then err invalid_move else ok tt)
      tail true = refl
      tail false = refl

  blocked_iff :
      IsClosed s.nodes s.closures
      → IsNode s.nodes q
      → (blocked ≡ true) ↔ ((i : ℕ) × (up (parent_of s.nodes) i q ≡ some n))
  blocked_iff c ex = (there, λ path. back path.0 path.1)
    where
      there : blocked ≡ true → (i : ℕ) × (up (parent_of s.nodes) i q ≡ some n)
      there h = elim (Bool-cases (q == n)) [
        | inl e ↦ (0, ap some (eq_of_== q n e))
        | inr e ↦ any-up s.nodes s.closures c n q (rw e at h)
      ]

      back : (i : ℕ) → up (parent_of s.nodes) i q ≡ some n → blocked ≡ true
      back i h = or_right (q == n) _ (up-any s.nodes s.closures c n q i ex h)

module _ (workspace_id n : ℕ) (s : Store) where
  relocate-ne-invalid :
      (accepts : Event → Bool) (actor : ℕ) (target : Option ℕ) (event : Option Event) (node : Node)
      → relocate accepts workspace_id n actor target event node s ≢ err invalid_move
  unfolding relocate append_node_audit
  relocate-ne-invalid accepts actor target none node h = cc
  relocate-ne-invalid accepts actor target (some e) node h = ground arith

  settled-ne-invalid :
      (accepts : Event → Bool) (actor : ℕ) (target : Option ℕ) (event : Option Event) (node : Node)
      (same : Bool)
      → (if same then ok s else relocate accepts workspace_id n actor target event node s)
        ≢ err invalid_move
  settled-ne-invalid accepts actor target event node true h = cc
  settled-ne-invalid accepts actor target event node false h =
      relocate-ne-invalid accepts actor target event node h

-- In an exact store, a move of an active node to an active folder is refused as an invalid move
-- exactly when the folder is the node itself or stands under it.
pub move_with_audit-invalid_iff :
    (accepts : Event → Bool) (workspace_id n actor q : ℕ) (event : Option Event) (s : Store)
    (node parent : Node)
    → IsClosed s.nodes s.closures
    → node_in workspace_id n s.nodes ≡ some node
    → node.status ≡ active
    → find_first
        (λ m.
          m.workspace_id == workspace_id
          && m.id == q
          && is_folder m.node_type
          && is_active m.status)
        s.nodes
      ≡ some parent
    → (move_with_audit accepts workspace_id n actor (some q) event s ≡ err invalid_move)
      ↔ ((i : ℕ) × (up (parent_of s.nodes) i q ≡ some n))
unfolding move_with_audit
move_with_audit-invalid_iff accepts workspace_id n actor q event s node parent c hn ha hf =
    rw (hn, active_test, check_target-blocked workspace_id n q s parent hf) (there, back)
  where
    active_test : is_active node.status ≡ true
    active_test = rw ha refl

    ex : IsNode s.nodes q
    ex =
        let (i, t) = find_first_sound _ s.nodes parent hf in
        subst (IsNode s.nodes) (target_id workspace_id q parent t) (IsNode-of_In s.nodes parent i)

    there :
        ((if blocked workspace_id n q s then err invalid_move else ok tt)
            >> (if eq_option node.parent_id (some q)
                then ok s
                else relocate accepts workspace_id n actor (some q) event node s))
          ≡ err invalid_move
        → (i : ℕ) × (up (parent_of s.nodes) i q ≡ some n)
    there h = elim (Bool-cases (blocked workspace_id n q s)) [
      | inl b ↦ (blocked_iff workspace_id n q s c ex).0 b
      | inr b ↦ absurd (
          settled-ne-invalid workspace_id n s accepts actor (some q) event node
            (eq_option node.parent_id (some q)) (rw b at h))
    ]

    back :
        (i : ℕ) × (up (parent_of s.nodes) i q ≡ some n)
        → ((if blocked workspace_id n q s then err invalid_move else ok tt)
            >> (if eq_option node.parent_id (some q)
                then ok s
                else relocate accepts workspace_id n actor (some q) event node s))
          ≡ err invalid_move
    back path = rw ((blocked_iff workspace_id n q s c ex).1 path) refl
