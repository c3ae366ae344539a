-- ===== src/Authorization/Granted.antt =====
-- An independent reading of the precedence rules of the authorization service.
use file_share_manager.Prelude.{ℕ, ◌≤◌, ◌≡◌, ◌≢◌, ◌⊎◌, List, In}
use file_share_manager.Authorization.{
  AccessLevel, SubjectType, user, group, allow, deny, EffectiveAclEntry, access_rank,
}
use file_share_manager.Authorization.Runs.{IsFor}

-- The entries of one kind of subject at one depth are the ones that count: no nearer entry names
-- the user or a group, and an entry for the user goes before those for groups.
pub record IsDecisive (es : List EffectiveAclEntry) (depth : ℕ) (t : SubjectType) : Type 0 where
  pub kind : (t ≡ user) ⊎ (t ≡ group)
  pub nearest_user : (x : EffectiveAclEntry) → In x es → IsFor user x → depth ≤ x.depth
  pub nearest_group : (x : EffectiveAclEntry) → In x es → IsFor group x → depth ≤ x.depth
  pub user_first : t ≡ group → (x : EffectiveAclEntry) → In x es → IsFor user x → x.depth ≢ depth

-- Among the decisive entries one allows the level, and none denies.
pub record IsGranted (es : List EffectiveAclEntry) (required : AccessLevel) : Type 0 where
  pub depth : ℕ
  pub subject : SubjectType
  pub decisive : IsDecisive es depth subject
  pub no_deny :
      (x : EffectiveAclEntry) → In x es → x.depth ≡ depth → IsFor subject x → x.effect ≢ deny
  pub grant : EffectiveAclEntry
  pub listed : In grant es
  pub placed : grant.depth ≡ depth
  pub to : IsFor subject grant
  pub allows : grant.effect ≡ allow
  pub enough : access_rank required ≤ access_rank grant.access_level
