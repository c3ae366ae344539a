-- ===== src/Acl/Revoking.antt =====
-- `RevokePermissionWithAudit` of server/internal/dao/acl.go under `ListEffectiveEntries`.
use file_share_manager.Prelude.{
  ℕ, ==_refl, ◌≡◌, ◌≢◌, ◌↔◌, refl, sym, ap, ◌∙◌, subst, inl, inr, Bool, true, false, List, Option,
  ok, In, Bool-cases, arith, false≢true,
}
use file_share_manager.Authorization.{user, EffectiveAclEntry}
use file_share_manager.Authorization.Runs.{IsFor}
use file_share_manager.Nodes.Store.{NodeClosure, Event}
use file_share_manager.Acl.Tables.{NodeAcl, Tables, is_rule, increment_workspace_users_auth_version}
use file_share_manager.Acl.Changes.{revoke_permission_with_audit}
use file_share_manager.Acl.Effective.{names, list_effective_entries}
use file_share_manager.Acl.Reading.{IsEffective, list_effective_entries_iff}
use file_share_manager.Acl.Upserts.{append_acl_audit-SameReads, names_user}
use file_share_manager.Acl.Replacing.{revoke_permission_with_audit-acls}

-- An entry stays where its rule does.
kept-IsEffective :
    (t t' : Tables) (ws node user_id : ℕ) (groups : List ℕ) (x : EffectiveAclEntry)
    → t'.closures ≡ t.closures
    → t'.nodes ≡ t.nodes
    → (g : IsEffective ws node user_id groups t x) → In g.rule t'.acls
    → IsEffective ws node user_id groups t' x
kept-IsEffective t t' ws node user_id groups x closures nodes g i = record {
  rule = g.rule;
  path = g.path;
  ruled = i;
  listed = subst (In g.path) (sym closures) g.listed;
  from = g.from;
  to = g.to;
  inside = g.inside;
  reaches = g.reaches;
  named = g.named;
  unbroken =
      λ b j d n k e w m. g.unbroken b (subst (In b) closures j) d n (subst (In n) nodes k) e w m;
  copied = g.copied;
}

of_is_rule :
    (ws node id : ℕ) (a : NodeAcl)
    → is_rule ws node user id a ≡ true
    → (a.node_id ≡ node) × (a.subject_type ≡ user) × (a.subject_id ≡ id)
of_is_rule ws node id a m = ground arith

is_rule_of :
    (ws node id : ℕ) (a : NodeAcl)
    → a.workspace_id ≡ ws
    → a.node_id ≡ node
    → a.subject_type ≡ user
    → a.subject_id ≡ id
    → is_rule ws node user id a ≡ true
is_rule_of ws node id a w n k i = rw (w, n, k, i, ==_refl ws, ==_refl node, ==_refl id) refl

-- A rule for one user does not name another.
names_other :
    (ws node id other : ℕ) (groups : List ℕ) (a : NodeAcl)
    → other ≢ id
    → names other groups a ≡ true
    → ¬ (is_rule ws node user id a ≡ true)
names_other ws node id other groups a ne named m =
    let (_, kind, number) = of_is_rule ws node id a m in
    ne (sym (names_user other groups a named (rw kind refl)).0 ∙ number)

module _ (accepts : Event → Bool) (ws node id : ℕ) (event : Option Event) (t t' : Tables)
    (revoked : revoke_permission_with_audit accepts ws node user id event t ≡ ok t') where
  revoke-reads : (t'.closures ≡ t.closures) × (t'.nodes ≡ t.nodes)
  unfolding revoke_permission_with_audit increment_workspace_users_auth_version
  revoke-reads = let (_, c, n) = append_acl_audit-SameReads accepts event _ _ _ t' revoked in (c, n)

  -- Every entry behind the revocation was there before, by a rule that is not the revoked one.
  before_revocation :
      (m user_id : ℕ) (groups : List ℕ) (x : EffectiveAclEntry)
      → (g : IsEffective ws m user_id groups t' x)
      → IsEffective ws m user_id groups t x × (is_rule ws node user id g.rule ≡ false)
  before_revocation m user_id groups x g =
      let (c, n) = revoke-reads in
      let (i, k) =
        (revoke_permission_with_audit-acls accepts ws node user id event t t' revoked g.rule).0
          g.ruled in
      (kept-IsEffective t' t ws m user_id groups x (sym c) (sym n) g i, k)

  after_revocation :
      (m user_id : ℕ) (groups : List ℕ) (x : EffectiveAclEntry)
      → (g : IsEffective ws m user_id groups t x) → ¬ (is_rule ws node user id g.rule ≡ true)
      → IsEffective ws m user_id groups t' x
  after_revocation m user_id groups x g other =
      let (c, n) = revoke-reads in
      kept-IsEffective t t' ws m user_id groups x c n g (
        (revoke_permission_with_audit-acls accepts ws node user id event t t' revoked g.rule).1
          (g.ruled, not_so (is_rule ws node user id g.rule) other))
    where
      not_so : (b : Bool) → ¬ (b ≡ true) → b ≡ false
      not_so b h = elim (Bool-cases b) [ inl e ↦ absurd (h e) | inr e ↦ e ]

-- A revocation for a user takes from the rules that apply to the user at the node exactly those for
-- the user on the node itself: what is handed down from above and what comes by a group stays. The
-- rules that apply to other users stay at every node. The rows of depth 0 in the closure table are
-- assumed to be those of a node with itself.
pub revoke_permission_with_audit-list_effective_entries :
    (accepts : Event → Bool) (ws node id : ℕ) (event : Option Event) (t t' : Tables)
    → revoke_permission_with_audit accepts ws node user id event t ≡ ok t'
    → ((c : NodeClosure) → In c t.closures → (c.depth ≡ 0) ↔ (c.ancestor_id ≡ c.descendant_id))
    → ((groups : List ℕ) (x : EffectiveAclEntry)
        → In x (list_effective_entries ws node id groups t')
          ↔ In x (list_effective_entries ws node id groups t) × ¬ (IsFor user x × (x.depth ≡ 0)))
      × ((m other : ℕ) (groups : List ℕ) (x : EffectiveAclEntry)
          → other ≢ id
          → In x (list_effective_entries ws m other groups t')
            ↔ In x (list_effective_entries ws m other groups t))
revoke_permission_with_audit-list_effective_entries accepts ws node id event t t' h self = (
  λ groups x. (gone groups x, λ (i, n). stays groups x i n),
  λ m other groups x ne. (
    λ i.
        (list_effective_entries_iff ws m other groups t x).1
          (before_revocation accepts ws node id event t t' h m other groups x
            ((list_effective_entries_iff ws m other groups t' x).0 i)).0,
    λ i.
        let g = (list_effective_entries_iff ws m other groups t x).0 i in
        (list_effective_entries_iff ws m other groups t' x).1 (
          after_revocation accepts ws node id event t t' h m other groups x g
            (names_other ws node id other groups g.rule ne g.named)),
  ),
)
  where
    gone :
        (groups : List ℕ) (x : EffectiveAclEntry)
        → In x (list_effective_entries ws node id groups t')
        → In x (list_effective_entries ws node id groups t) × ¬ (IsFor user x × (x.depth ≡ 0))
    gone groups x i =
        let g = (list_effective_entries_iff ws node id groups t' x).0 i in
        let (b, k) = before_revocation accepts ws node id event t t' h node id groups x g in
        (
          (list_effective_entries_iff ws node id groups t x).1 b,
          λ (f, d).
              let (number, kind) =
                names_user id groups g.rule g.named (subst (IsFor user) g.copied f) in
              let own =
                (self g.path
                    (subst (In g.path) (revoke-reads accepts ws node id event t t' h).0 g.listed)).0
                  (ap (λ (e : EffectiveAclEntry). e.depth) (sym g.copied) ∙ d) in
              false≢true (
                sym k
                ∙ is_rule_of ws node id g.rule g.inside (sym g.from ∙ own ∙ g.to) kind number),
        )

    stays :
        (groups : List ℕ) (x : EffectiveAclEntry)
        → In x (list_effective_entries ws node id groups t)
        → ¬ (IsFor user x × (x.depth ≡ 0))
        → In x (list_effective_entries ws node id groups t')
    stays groups x i n =
        let g = (list_effective_entries_iff ws node id groups t x).0 i in
        (list_effective_entries_iff ws node id groups t' x).1 (
          after_revocation accepts ws node id event t t' h node id groups x g (λ m.
            let (here, kind, _) = of_is_rule ws node id g.rule m in
            n (
              subst (IsFor user) (sym g.copied) (rw kind refl),
              ap (λ (e : EffectiveAclEntry). e.depth) g.copied
                  ∙ (self g.path g.listed).1 (g.from ∙ here ∙ sym g.to),
            )))
