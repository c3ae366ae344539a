-- ===== src/Acl/Replacing.antt =====
-- The rules of a node behind `ReplaceDirectPermissionsWithAudit` and `RevokePermissionWithAudit` of
-- server/internal/dao/acl.go.
use text.Mathlib.Text.{◌==◌ as str_eq}
use text.Mathlib.TextEquality.{eq_iff}
use file_share_manager.Prelude.{
  ◌≢◌, Bool-cases, ℕ, suc, ==_refl, ◌≡◌, ◌↔◌, refl, sym, ap, ◌∙◌, subst, inl, inr, Bool, true,
  false, false≢true, not, List, [], ◌∷◌, ◌++◌, Option, ok, guard-passed, In, In-append_left,
  In-append_right, In-append_cases, select, In-select, select-In, sort_by-In, In-sort_by, not-false,
}
use file_share_manager.Authorization.{SubjectType, Effect, allow, deny}
use file_share_manager.Nodes.Store.{Event}
use file_share_manager.Acl.Tables.{
  NodeAcl, Tables, duplicated_key, is_rule, is_direct, increment_workspace_users_auth_version,
}
use file_share_manager.Acl.Changes.{
  inserted_effect, stamped, has_duplicate, by_subject, list_direct_permissions,
  revoke_permission_with_audit, replace_direct_permissions_with_audit,
}
use file_share_manager.Acl.Upserts.{append_acl_audit-SameReads}

stamped-is_direct :
    (ws node actor now : ℕ) (entries : List NodeAcl) (id : ℕ) (a : NodeAcl)
    → In a (stamped id ws node actor now entries)
    → is_direct ws node a ≡ true
unfolding stamped
stamped-is_direct ws node actor now [] id a i = absurd i
stamped-is_direct ws node actor now (x ∷ entries) id a (inl e) =
    rw (e, ==_refl ws, ==_refl node) refl
stamped-is_direct ws node actor now (x ∷ entries) id a (inr i) =
    stamped-is_direct ws node actor now entries (suc id) a i

filled : (e : Effect) → inserted_effect e ≢ Effect.other ""
filled allow = λ q. cc
filled deny = λ q. cc
filled (Effect.other text) = elim (Bool-cases (str_eq text "")) [
  | inl e ↦ rw e (λ q. other_allow q)
  | inr e ↦ rw e (λ q. false≢true (sym e ∙ (eq_iff text "").1 (inner q)))
]
  where
    other_allow : allow ≢ Effect.other ""
    other_allow q = cc

    inner : Effect.other text ≡ Effect.other "" → text ≡ ""
    inner q = cc

stamped-filled :
    (ws node actor now : ℕ) (entries : List NodeAcl) (id : ℕ) (a : NodeAcl)
    → In a (stamped id ws node actor now entries)
    → (a.inherit_to_children ≡ true) × (a.effect ≢ Effect.other "")
unfolding stamped
stamped-filled ws node actor now [] id a i = absurd i
stamped-filled ws node actor now (x ∷ entries) id a (inl e) = (
  ap (λ (b : NodeAcl). b.inherit_to_children) e,
  λ q. filled x.effect (sym (ap (λ (b : NodeAcl). b.effect) e) ∙ q),
)
stamped-filled ws node actor now (x ∷ entries) id a (inr i) =
    stamped-filled ws node actor now entries (suc id) a i

not_both : (b : Bool) → not b ≡ true → b ≡ true → ⊥
not_both b h k = false≢true (sym (not-false b h) ∙ k)

-- After a successful replacement the rules on the node are exactly the new entries as they are
-- inserted, with the workspace, the node and the actor filled in and an empty effect as an allowing
-- one; each of them is handed down, also where its entry asks that it should not be; and the rules on
-- other nodes are those of before.
pub replace_direct_permissions_with_audit-direct :
    (accepts : Event → Bool) (ws node actor now : ℕ) (entries : List NodeAcl) (event : Option Event)
    (t t' : Tables)
    → replace_direct_permissions_with_audit accepts ws node actor now entries event t ≡ ok t'
    → ((a : NodeAcl)
        → In a (list_direct_permissions ws node t')
          ↔ In a (stamped t.next_acl_id ws node actor now entries))
      × ((a : NodeAcl)
          → In a (list_direct_permissions ws node t')
          → (a.inherit_to_children ≡ true) × (a.effect ≢ Effect.other ""))
      × ((a : NodeAcl) → (is_direct ws node a ≡ false) → In a t'.acls ↔ In a t.acls)
unfolding replace_direct_permissions_with_audit list_direct_permissions
    increment_workspace_users_auth_version
replace_direct_permissions_with_audit-direct accepts ws node actor now entries event t t' h =
    let (_, k) =
      guard-passed (not (has_duplicate (stamped t.next_acl_id ws node actor now entries)))
        duplicated_key _ h in
    let (acls, _, _) = append_acl_audit-SameReads accepts event _ _ _ t' k in
    (
      λ a. (listed a acls, back a acls),
      λ a i. stamped-filled ws node actor now entries t.next_acl_id a (listed a acls i),
      λ a o. (kept a o acls, unkept a o acls),
    )
  where
    rows : List NodeAcl
    rows = stamped t.next_acl_id ws node actor now entries

    others : List NodeAcl
    others = select (λ a. not (is_direct ws node a)) t.acls

    listed :
        (a : NodeAcl)
        → t'.acls ≡ others ++ rows
        → In a (list_direct_permissions ws node t')
        → In a rows
    listed a acls i =
        let (j, d) =
          select-In (is_direct ws node) a t'.acls
            (sort_by-In by_subject a (select (is_direct ws node) t'.acls) i) in
        elim (In-append_cases a others rows (subst (In a) acls j)) [
          | inl o ↦
              let (_, n) = select-In (λ a. not (is_direct ws node a)) a t.acls o in
              absurd (not_both (is_direct ws node a) n d)
          | inr r ↦ r
        ]

    back :
        (a : NodeAcl)
        → t'.acls ≡ others ++ rows
        → In a rows
        → In a (list_direct_permissions ws node t')
    back a acls i = In-sort_by by_subject a (select (is_direct ws node) t'.acls) (
        In-select (is_direct ws node) a t'.acls
          (subst (In a) (sym acls) (In-append_right a others rows i))
          (stamped-is_direct ws node actor now entries t.next_acl_id a i))

    kept :
        (a : NodeAcl)
        → is_direct ws node a ≡ false
        → t'.acls ≡ others ++ rows
        → In a t'.acls
        → In a t.acls
    kept a o acls i = elim (In-append_cases a others rows (subst (In a) acls i)) [
      | inl j ↦ (select-In (λ a. not (is_direct ws node a)) a t.acls j).0
      | inr j ↦
          absurd
            (false≢true (sym o ∙ stamped-is_direct ws node actor now entries t.next_acl_id a j))
    ]

    unkept :
        (a : NodeAcl)
        → is_direct ws node a ≡ false
        → t'.acls ≡ others ++ rows
        → In a t.acls
        → In a t'.acls
    unkept a o acls i = subst (In a) (sym acls) (
        In-append_left a others rows
          (In-select (λ a. not (is_direct ws node a)) a t.acls i (ap not o)))

-- After a successful revocation the rules are those of before without the ones for the subject on
-- the node.
pub revoke_permission_with_audit-acls :
    (accepts : Event → Bool) (ws node : ℕ) (kind : SubjectType) (id : ℕ) (event : Option Event)
    (t t' : Tables)
    → revoke_permission_with_audit accepts ws node kind id event t ≡ ok t'
    → (a : NodeAcl) → In a t'.acls ↔ In a t.acls × (is_rule ws node kind id a ≡ false)
unfolding revoke_permission_with_audit increment_workspace_users_auth_version
revoke_permission_with_audit-acls accepts ws node kind id event t t' h a =
    let (acls, _, _) = append_acl_audit-SameReads accepts event _ _ _ t' h in
    (
      λ i.
          let (j, n) =
            select-In (λ a. not (is_rule ws node kind id a)) a t.acls (subst (In a) acls i) in
          (j, not-false (is_rule ws node kind id a) n),
      λ (i, n).
          subst (In a) (sym acls)
            (In-select (λ a. not (is_rule ws node kind id a)) a t.acls i (ap not n)),
    )
