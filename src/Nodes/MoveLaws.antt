-- ===== src/Nodes/MoveLaws.antt =====
-- `MoveWithAudit` of server/internal/dao/node.go and the closure table.
use file_share_manager.Prelude.{
  ℕ, ◌==◌, eq_option, ◌≡◌, ◌≢◌, refl, sym, ap, ◌∙◌, subst, ◌⊎◌, inl, inr, Bool, true, false,
  false≢true, ◌&&◌, ◌||◌, not, Option, none, some, Result, ok, guard, or_fail, >>=-eq-ok,
  guard-eq-ok, or_fail-eq-ok, arith, any, find_first, find_first_sound, Bool-cases, if◌then◌else◌,
}
use file_share_manager.Nodes.Store.{
  Node, Event, Snapshot, Store, Error, record_not_found, invalid_move, node_state, is_active,
  is_folder, node_in, append_change, append_node_audit,
}
use file_share_manager.Nodes.Tree.{
  update_node, moved, detached, attached, check_target, relocate, move_with_audit,
}
use file_share_manager.Nodes.Paths.{up}
use file_share_manager.Nodes.Closure.{parent_of, IsNode, IsClosed, IsNode-of_In, both_of, up-any}
use file_share_manager.Nodes.Rows.{some-inj}
use file_share_manager.Nodes.Moving.{IsClosed-moved}

-- The audit event leaves the tables alone.
pub append_node_audit-tables :
    (accepts : Event → Bool) (event : Option Event) (node : Node) (before after : Option Snapshot)
    (s s' : Store)
    → append_node_audit accepts event node before after s ≡ ok s'
    → (s'.nodes ≡ s.nodes) × (s'.closures ≡ s.closures)
unfolding append_node_audit
append_node_audit-tables accepts none node before after s s' h = ground arith
append_node_audit-tables accepts (some e) node before after s s' h = ground arith

pub target_id :
    (workspace_id q : ℕ) (m : Node)
    → (m.workspace_id == workspace_id && m.id == q && is_folder m.node_type && is_active m.status)
      ≡ true
    → m.id ≡ q
target_id workspace_id q m t = ground arith

pub or_right : (a b : Bool) → b ≡ true → (a || b) ≡ true
or_right a b h = ground arith

module _ (workspace_id n : ℕ) (s : Store) where
  pub node_in-IsNode :
      (node : Node) → node_in workspace_id n s.nodes ≡ some node → (node.id ≡ n) × IsNode s.nodes n
  node_in-IsNode node h =
      let (i, t) = find_first_sound _ s.nodes node h in
      let (_, e) = both_of node.workspace_id workspace_id node.id n t in
      (e, subst (IsNode s.nodes) e (IsNode-of_In s.nodes node i))

  check_target_sound :
      (q : ℕ)
      → check_target workspace_id n (some q) s ≡ ok tt
      → IsNode s.nodes q
        × (any (λ c. c.ancestor_id == n && c.descendant_id == q) s.closures ≡ false)
  unfolding check_target
  check_target_sound q h =
      let (_, _, h₁) = >>=-eq-ok (guard (not (q == n)) invalid_move) _ h in
      let (parent, found, h₂) = >>=-eq-ok (or_fail (find_first _ s.nodes) record_not_found) _ h₁ in
      let (i, t) = find_first_sound _ s.nodes parent (or_fail-eq-ok _ _ found) in
      (
        subst (IsNode s.nodes) (target_id workspace_id q parent t) (IsNode-of_In s.nodes parent i),
        not_true _ (guard-eq-ok _ _ h₂),
      )
    where
      not_true : (b : Bool) → not b ≡ true → b ≡ false
      not_true true e = cc
      not_true false e = refl

relocate-tables :
    (accepts : Event → Bool) (workspace_id n actor : ℕ) (target : Option ℕ) (event : Option Event)
    (node : Node) (s s' : Store)
    → relocate accepts workspace_id n actor target event node s ≡ ok s'
    → (s'.nodes ≡ update_node node.id (moved actor target) s.nodes)
      × (s'.closures ≡ attached n target (detached n s.closures))
unfolding relocate append_change
relocate-tables accepts workspace_id n actor target event node s s' h =
    append_node_audit-tables accepts event _ _ _ _ s' h

move_with_audit-eq-ok :
    (accepts : Event → Bool) (workspace_id n actor : ℕ) (target : Option ℕ) (event : Option Event)
    (s s' : Store)
    → move_with_audit accepts workspace_id n actor target event s ≡ ok s'
    → (IsNode s.nodes n
        × (check_target workspace_id n target s ≡ ok tt)
        × (((s'.nodes ≡ s.nodes) × (s'.closures ≡ s.closures))
            ⊎ ((s'.nodes ≡ update_node n (moved actor target) s.nodes)
                × (s'.closures ≡ attached n target (detached n s.closures)))))
unfolding move_with_audit
move_with_audit-eq-ok accepts workspace_id n actor target event s s' h =
    let (node, found, h₁) =
      >>=-eq-ok (or_fail (node_in workspace_id n s.nodes) record_not_found) _ h in
    let (same, ex) = node_in-IsNode workspace_id n s node (or_fail-eq-ok _ _ found) in
    let (_, _, h₂) = >>=-eq-ok (guard (is_active node.status) node_state) _ h₁ in
    let (_, checked, h₃) = >>=-eq-ok (check_target workspace_id n target s) _ h₂ in
    (ex, checked, outcome node same h₃)
  where
    outcome :
        (node : Node)
        → node.id ≡ n
        → (if eq_option node.parent_id target
            then ok s
            else relocate accepts workspace_id n actor target event node s)
          ≡ ok s'
        → ((s'.nodes ≡ s.nodes) × (s'.closures ≡ s.closures))
          ⊎ ((s'.nodes ≡ update_node n (moved actor target) s.nodes)
              × (s'.closures ≡ attached n target (detached n s.closures)))
    outcome node same h = elim (Bool-cases (eq_option node.parent_id target)) [
      | inl e ↦ inl (unmoved (rw e at h))
      | inr e ↦
          let (hn, hc) =
            relocate-tables accepts workspace_id n actor target event node s s' (rw e at h) in
          inr (hn ∙ ap (λ x. update_node x (moved actor target) s.nodes) same, hc)
    ]
      where
        unmoved :
            ◌≡◌ {A = Result Error Store} (ok s) (ok s')
            → (s'.nodes ≡ s.nodes) × (s'.closures ≡ s.closures)
        unmoved q = ground arith

check_target-path :
    (workspace_id n : ℕ) (s : Store) (target : Option ℕ)
    → IsClosed s.nodes s.closures
    → check_target workspace_id n target s ≡ ok tt
    → ((q : ℕ) → target ≡ some q → IsNode s.nodes q)
      × ((q i : ℕ) → target ≡ some q → up (parent_of s.nodes) i q ≢ some n)
check_target-path workspace_id n s none c h = (λ q t. cc, λ q i t. cc)
check_target-path workspace_id n s (some p) c h =
    let (ex, free) = check_target_sound workspace_id n s p h in
    (
      λ q t. subst (IsNode s.nodes) (some-inj t) ex,
      λ q i t e. false≢true (
          sym free
          ∙ up-any s.nodes s.closures c n p i ex
              (subst (λ x. up (parent_of s.nodes) i x ≡ some n) (sym (some-inj t)) e)),
    )

-- A successful move keeps an exact closure table exact: its rows are again all chains of parents and no
-- others, every parent is a node, and no node stands above itself.
pub move_with_audit-IsClosed :
    (accepts : Event → Bool) (workspace_id n actor : ℕ) (target : Option ℕ) (event : Option Event)
    (s s' : Store)
    → IsClosed s.nodes s.closures
    → move_with_audit accepts workspace_id n actor target event s ≡ ok s'
    → IsClosed s'.nodes s'.closures
move_with_audit-IsClosed accepts workspace_id n actor target event s s' c h =
    let (ex, checked, out) =
      move_with_audit-eq-ok accepts workspace_id n actor target event s s' h in
    let (target_ex, clear) = check_target-path workspace_id n s target c checked in
    elim out [
      | inl (hn, hc) ↦ rw (hn, hc) c
      | inr (hn, hc) ↦
          rw (hn, hc) (IsClosed-moved s.nodes s.closures c n ex actor target target_ex clear)
    ]
