-- ===== src/Acl/Upserts.antt =====
-- The rows behind the upsert of `GrantPermissionWithAudit` of server/internal/dao/acl.go, and the
-- tables that a change of rules reads.
use file_share_manager.Prelude.{
  ℕ, ==_refl, ◌≡◌, refl, sym, ap, ◌∙◌, inl, inr, Bool, true, false≢true, List, [], ◌∷◌, Option,
  none, some, ok, guard-passed, ok_injective, find_first, find_first_sound, find_first-none,
  update_where-In, In-update_where, In, In-append_right, In-append_cases, Bool-cases, arith,
}
use file_share_manager.Authorization.{user, same_subject}
use file_share_manager.Nodes.Store.{Event}
use file_share_manager.Acl.Tables.{NodeAcl, AclSnapshot, Tables, audit_refused, append_acl_audit}
use file_share_manager.Acl.Changes.{assigned, inserted_effect, inserted_acl, same_rule, upsert}
use file_share_manager.Acl.Effective.{names}

-- The tables that the checks read are the same.
abbrev pub SameReads : Tables → Tables → Type 0
SameReads t t' = (t'.acls ≡ t.acls) × (t'.closures ≡ t.closures) × (t'.nodes ≡ t.nodes)

pub append_acl_audit-SameReads :
    (accepts : Event → Bool) (event : Option Event) (before after : AclSnapshot) (t t' : Tables)
    → append_acl_audit accepts event before after t ≡ ok t'
    → SameReads t t'
unfolding append_acl_audit
append_acl_audit-SameReads accepts none before after t t' h =
    let e = ok_injective t t' h in
    (ap (λ s. s.acls) (sym e), ap (λ s. s.closures) (sym e), ap (λ s. s.nodes) (sym e))
append_acl_audit-SameReads accepts (some event) before after t t' h =
    let (_, k) = guard-passed (accepts event) audit_refused _ h in
    let e = ok_injective _ t' k in
    (ap (λ s. s.acls) (sym e), ap (λ s. s.closures) (sym e), ap (λ s. s.nodes) (sym e))

pub upsert-reads :
    (acl : NodeAcl) (before : Option NodeAcl) (t : Tables)
    → ((upsert acl before t).closures ≡ t.closures) × ((upsert acl before t).nodes ≡ t.nodes)
unfolding upsert
upsert-reads acl none t = (refl, refl)
upsert-reads acl (some b) t = (refl, refl)

-- After the upsert every row for the subject carries the effect and the level that are inserted.
pub upsert-carried :
    (acl : NodeAcl) (t : Tables) (before : Option NodeAcl)
    → find_first (same_rule acl) t.acls ≡ before
    → (a : NodeAcl) → In a (upsert acl before t).acls
    → same_rule acl a ≡ true
    → (a.effect ≡ inserted_effect acl.effect) × (a.access_level ≡ acl.access_level)
unfolding upsert
upsert-carried acl t none f a i m =
    elim (In-append_cases a t.acls (record (inserted_acl acl) { id = t.next_acl_id } ∷ []) i) [
      | inl j ↦ absurd (false≢true (sym (find_first-none (same_rule acl) a t.acls f j) ∙ m))
      | inr (inl e) ↦ (ap (λ x. x.effect) e, ap (λ x. x.access_level) e)
      | inr (inr n) ↦ absurd n
    ]
upsert-carried acl t (some b) f a i m =
    let (x, j, e) = update_where-In (same_rule acl) (assigned (inserted_acl acl)) a t.acls i in
    elim (Bool-cases (same_rule acl x)) [
      | inl s ↦
          let q : a ≡ assigned (inserted_acl acl) x = rw s at e in
          (ap (λ x. x.effect) q, ap (λ x. x.access_level) q)
      | inr s ↦
          let q : a ≡ x = rw s at e in absurd (false≢true (sym s ∙ ap (same_rule acl) (sym q) ∙ m))
    ]

same_rule_self :
    (acl : NodeAcl) (id : ℕ)
    → acl.subject_type ≡ user
    → same_rule acl (record (inserted_acl acl) { id = id }) ≡ true
same_rule_self acl id u =
    rw (u, ==_refl acl.workspace_id, ==_refl acl.node_id, ==_refl acl.subject_id) refl

pub upsert-stored :
    (acl : NodeAcl) (t : Tables) (before : Option NodeAcl)
    → find_first (same_rule acl) t.acls ≡ before
    → acl.subject_type ≡ user
    → (a : NodeAcl) × In a (upsert acl before t).acls × (same_rule acl a ≡ true)
unfolding upsert
upsert-stored acl t none f u = (
  record (inserted_acl acl) { id = t.next_acl_id },
  In-append_right _ t.acls (record (inserted_acl acl) { id = t.next_acl_id } ∷ []) (inl refl),
  same_rule_self acl t.next_acl_id u,
)
upsert-stored acl t (some b) f u =
    let (i, m) = find_first_sound (same_rule acl) t.acls b f in
    (
      assigned (inserted_acl acl) b,
      rw m at (In-update_where (same_rule acl) (assigned (inserted_acl acl)) b t.acls i),
      m,
    )

pub same_rule_of :
    (acl a : NodeAcl)
    → a.workspace_id ≡ acl.workspace_id
    → a.node_id ≡ acl.node_id
    → a.subject_type ≡ acl.subject_type
    → a.subject_id ≡ acl.subject_id
    → acl.subject_type ≡ user
    → same_rule acl a ≡ true
same_rule_of acl a w n k s u =
    rw (w, n, k, s, u, ==_refl acl.workspace_id, ==_refl acl.node_id, ==_refl acl.subject_id) refl

pub of_same_rule :
    (acl a : NodeAcl)
    → same_rule acl a ≡ true
    → acl.subject_type ≡ user
    → (a.workspace_id ≡ acl.workspace_id)
      × (a.node_id ≡ acl.node_id)
      × (a.subject_type ≡ user)
      × (a.subject_id ≡ acl.subject_id)
of_same_rule acl a m u = ground arith

-- A rule for the user that `names` picks is the one with the user's number.
pub names_user :
    (user_id : ℕ) (groups : List ℕ) (a : NodeAcl)
    → names user_id groups a ≡ true
    → same_subject a.subject_type user ≡ true
    → (a.subject_id ≡ user_id) × (a.subject_type ≡ user)
names_user user_id groups a n s = ground arith

pub user_names :
    (user_id : ℕ) (groups : List ℕ) (a : NodeAcl)
    → a.subject_type ≡ user
    → a.subject_id ≡ user_id
    → names user_id groups a ≡ true
user_names user_id groups a s i = ground arith
