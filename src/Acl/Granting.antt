-- ===== src/Acl/Granting.antt =====
-- `GrantPermissionWithAudit` of server/internal/dao/acl.go under the checks of
-- server/internal/service/authorization/service.go.
use file_share_manager.Prelude.{
  ℕ, ◌≤◌, leb, ◌≡◌, ◌≢◌, refl, sym, ap, ◌∙◌, subst, inl, inr, Bool, true, false, ◌&&◌, List, Option,
  some, ok, find_first, In, arith,
}
use file_share_manager.Authorization.{
  AccessLevel, user, group, allow, deny, EffectiveAclEntry, access_rank, is_allow, resolve,
}
use file_share_manager.Authorization.Granted.{IsGranted}
use file_share_manager.Authorization.Runs.{IsByDepth, IsFor}
use file_share_manager.Authorization.Decision.{resolve_iff}
use file_share_manager.Authorization.Order.{same_answer}
use file_share_manager.Nodes.Store.{Node, NodeClosure, Event, is_active, node_in}
use file_share_manager.Nodes.Closure.{row}
use file_share_manager.Acl.Tables.{NodeAcl, Tables, increment_workspace_users_auth_version}
use file_share_manager.Acl.Upserts.{
  append_acl_audit-SameReads, upsert-reads, upsert-carried, upsert-stored, same_rule_of,
  of_same_rule, names_user, user_names,
}
use file_share_manager.Acl.Changes.{inserted_effect, same_rule, upsert, grant_permission_with_audit}
use file_share_manager.Acl.Effective.{effective_entry, list_effective_entries}
use file_share_manager.Acl.Reading.{list_effective_entries_iff, list_effective_entries-IsByDepth}
use file_share_manager.Acl.Service.{
  Actor, is_privileged, list_user_group_ids, authorize, authorize_with_state,
}

module _ (accepts : Event → Bool) (acl : NodeAcl) (event : Option Event) (t t' : Tables)
    (granted : grant_permission_with_audit accepts acl event t ≡ ok t')
    (to_user : acl.subject_type ≡ user) where
  grant-reads :
      (t'.acls ≡ (upsert acl (find_first (same_rule acl) t.acls) t).acls)
      × (t'.closures ≡ t.closures)
      × (t'.nodes ≡ t.nodes)
  unfolding grant_permission_with_audit increment_workspace_users_auth_version
  grant-reads =
      let (a, c, n) = append_acl_audit-SameReads accepts event _ _ _ t' granted in
      let (d, m) = upsert-reads acl (find_first (same_rule acl) t.acls) t in (a, c ∙ d, n ∙ m)

  module _ (groups : List ℕ) (self_row : In (row acl.node_id acl.node_id 0) t.closures)
      (self_only : (c : NodeClosure)
        → In c t.closures
        → c.depth ≡ 0
        → c.ancestor_id ≡ c.descendant_id) where
    abbrev entries : List EffectiveAclEntry
    entries = list_effective_entries acl.workspace_id acl.node_id acl.subject_id groups t'

    granted_entry :
        (x : EffectiveAclEntry)
        → In x entries
        → IsFor user x
        → x.depth ≡ 0
        → (x.effect ≡ (inserted_effect acl.effect)) × (x.access_level ≡ acl.access_level)
    granted_entry x i f d =
        let g =
          (list_effective_entries_iff acl.workspace_id acl.node_id acl.subject_id groups t' x).0
            i in
        let (_, closures, _) = grant-reads in
        let depth : g.path.depth ≡ 0 = ap (λ e. e.depth) (sym g.copied) ∙ d in
        let self = self_only g.path (subst (In g.path) closures g.listed) depth in
        let (number, kind) =
          names_user acl.subject_id groups g.rule g.named (subst (IsFor user) g.copied f) in
        let (effect, level) = stored_rule g.rule g.ruled (
          same_rule_of acl g.rule g.inside (sym g.from ∙ self ∙ g.to) (kind ∙ sym to_user) number
            to_user) in
        (ap (λ e. e.effect) g.copied ∙ effect, ap (λ e. e.access_level) g.copied ∙ level)
      where
        stored_rule :
            (a : NodeAcl)
            → In a t'.acls
            → same_rule acl a ≡ true
            → (a.effect ≡ (inserted_effect acl.effect)) × (a.access_level ≡ acl.access_level)
        stored_rule a i m =
            upsert-carried acl t (find_first (same_rule acl) t.acls) refl a
              (subst (In a) (grant-reads).0 i) m

    has_entry : (x : EffectiveAclEntry) × In x entries × IsFor user x × (x.depth ≡ 0)
    has_entry =
        let (a, i, m) = upsert-stored acl t (find_first (same_rule acl) t.acls) refl to_user in
        let (acls, closures, _) = grant-reads in
        let (ws, node, kind, number) = of_same_rule acl a m to_user in
        (
          effective_entry a (row acl.node_id acl.node_id 0),
          (list_effective_entries_iff acl.workspace_id acl.node_id acl.subject_id groups t'
                (effective_entry a (row acl.node_id acl.node_id 0))).1
              (record {
                rule = a;
                path = row acl.node_id acl.node_id 0;
                ruled = subst (In a) (sym acls) i;
                listed = subst (In (row acl.node_id acl.node_id 0)) (sym closures) self_row;
                from = sym node;
                to = refl;
                inside = ws;
                reaches = inl refl;
                named = user_names acl.subject_id groups a kind number;
                unbroken = λ b j k n l p q z. omega arith;
                copied = refl;
              }),
          rw kind refl,
          refl,
        )

    granted_answer :
        (r : AccessLevel)
        → resolve entries r ≡ (
            is_allow (inserted_effect acl.effect)
            && leb (access_rank r) (access_rank acl.access_level))
    granted_answer r =
        let (x, i, f, d) = has_entry in
        let (effect, level) = granted_entry x i f d in
        same_answer (resolve entries r)
          (is_allow (inserted_effect acl.effect)
            && leb (access_rank r) (access_rank acl.access_level))
          (λ h. sound x i f d ((resolve_iff entries r by_depth).0 h))
          (λ h. (resolve_iff entries r by_depth).1 (complete x i f d effect level h))
      where
        by_depth : IsByDepth entries
        by_depth =
            list_effective_entries-IsByDepth acl.workspace_id acl.node_id acl.subject_id groups t'

        sound :
            (x : EffectiveAclEntry)
            → In x entries
            → IsFor user x
            → x.depth ≡ 0
            → IsGranted entries r
            → (is_allow (inserted_effect acl.effect)
                && leb (access_rank r) (access_rank acl.access_level))
              ≡ true
        sound x i f d g = elim g.decisive.kind [
          | inl k ↦
              let (e, l) =
                granted_entry g.grant g.listed (subst (λ z. IsFor z g.grant) k g.to)
                  (g.placed ∙ nearest) in
              allowed acl (sym e ∙ g.allows) (subst (λ z. access_rank r ≤ access_rank z) l g.enough)
          | inr k ↦ absurd (g.decisive.user_first k x i f (d ∙ sym nearest))
        ]
          where
            nearest : g.depth ≡ 0
            nearest = omega (arith, g.decisive.nearest_user x i f, d)

            allowed :
                (acl : NodeAcl)
                → (inserted_effect acl.effect) ≡ allow
                → access_rank r ≤ access_rank acl.access_level
                → (is_allow (inserted_effect acl.effect)
                    && leb (access_rank r) (access_rank acl.access_level))
                  ≡ true
            allowed acl e l = ground arith

        complete :
            (x : EffectiveAclEntry)
            → In x entries
            → IsFor user x
            → x.depth ≡ 0
            → x.effect ≡ (inserted_effect acl.effect)
            → x.access_level ≡ acl.access_level
            → (is_allow (inserted_effect acl.effect)
                && leb (access_rank r) (access_rank acl.access_level))
              ≡ true
            → IsGranted entries r
        complete x i f d effect level h =
            let (a, l) = parts acl h in
            record {
              depth = 0;
              subject = user;
              decisive = record {
                kind = inl refl;
                nearest_user = λ y j k. omega arith;
                nearest_group = λ y j k. omega arith;
                user_first = λ k. absurd (different k);
              };
              no_deny = λ y j e k q. undenied acl a (sym (granted_entry y j k e).0 ∙ q);
              grant = x;
              listed = i;
              placed = d;
              to = f;
              allows = effect ∙ a;
              enough = subst (λ z. access_rank r ≤ access_rank z) (sym level) l;
            }
          where
            parts :
                (acl : NodeAcl)
                → (is_allow (inserted_effect acl.effect)
                    && leb (access_rank r) (access_rank acl.access_level))
                  ≡ true
                → ((inserted_effect acl.effect) ≡ allow)
                  × (access_rank r ≤ access_rank acl.access_level)
            parts acl h = ground arith

            undenied :
                (acl : NodeAcl)
                → (inserted_effect acl.effect) ≡ allow
                → (inserted_effect acl.effect) ≢ deny
            undenied acl a q = cc

            different : user ≢ group
            different q = cc

-- A rule for a user that is granted on an active node decides the user's checks of that node,
-- whatever rules there were: for a user without an administrator's role the check of a level answers
-- yes exactly when the rule allows (an empty effect does) and its level ranks at least as high. The closure table is
-- assumed to hold the row of the node itself, and rows of depth 0 for nothing else.
pub grant_permission_with_audit-authorize :
    (accepts : Event → Bool) (acl : NodeAcl) (event : Option Event) (t t' : Tables) (actor : Actor)
    (node : Node) (r : AccessLevel)
    → grant_permission_with_audit accepts acl event t ≡ ok t'
    → acl.subject_type ≡ user
    → acl.subject_id ≡ actor.user_id
    → acl.workspace_id ≡ actor.workspace_id
    → is_privileged actor ≡ false
    → In (row acl.node_id acl.node_id 0) t.closures
    → ((c : NodeClosure) → In c t.closures → c.depth ≡ 0 → c.ancestor_id ≡ c.descendant_id)
    → node_in actor.workspace_id acl.node_id t.nodes ≡ some node
    → is_active node.status ≡ true
    → authorize actor acl.node_id r t'
      ≡ ok (
          is_allow (inserted_effect acl.effect)
          && leb (access_rank r) (access_rank acl.access_level))
unfolding authorize authorize_with_state list_user_group_ids
grant_permission_with_audit-authorize accepts acl event t t' actor node r granted kind number ws
      plain self_row self_only found state =
    let (_, _, nodes) = grant-reads accepts acl event t t' granted kind in
    rw
      (
        subst (λ l. node_in actor.workspace_id acl.node_id l ≡ some node) (sym nodes) found,
        state,
        plain,
        ← number,
        ← ws,
      )
      (ap ok (
        granted_answer accepts acl event t t' granted kind
          (list_user_group_ids acl.workspace_id acl.subject_id t') self_row self_only r))
