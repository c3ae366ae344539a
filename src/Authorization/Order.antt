-- ===== src/Authorization/Order.antt =====
-- The order among entries of one depth, which the query leaves open to `Resolve` of
-- server/internal/service/authorization/service.go.
use file_share_manager.Prelude.{◌≡◌, ◌↔◌, refl, sym, Bool, true, false, List, In}
use file_share_manager.Authorization.{
  AccessLevel, read, read_write, admin, EffectiveAclEntry, resolve, resolve_access_level,
}
use file_share_manager.Authorization.Runs.{IsByDepth}
use file_share_manager.Authorization.Granted.{IsGranted}
use file_share_manager.Authorization.Decision.{resolve_iff}

pub same_answer : (a b : Bool) → (a ≡ true → b ≡ true) → (b ≡ true → a ≡ true) → a ≡ b
same_answer true true f g = refl
same_answer true false f g = sym (f refl)
same_answer false true f g = g refl
same_answer false false f g = refl

module _ (es es' : List EffectiveAclEntry)
    (same : (x : EffectiveAclEntry) → In x es ↔ In x es') where
  IsGranted-same : (r : AccessLevel) → IsGranted es r → IsGranted es' r
  IsGranted-same r g = record {
    depth = g.depth;
    subject = g.subject;
    decisive = record {
      kind = g.decisive.kind;
      nearest_user = λ x i. g.decisive.nearest_user x ((same x).1 i);
      nearest_group = λ x i. g.decisive.nearest_group x ((same x).1 i);
      user_first = λ k x i. g.decisive.user_first k x ((same x).1 i);
    };
    no_deny = λ x i. g.no_deny x ((same x).1 i);
    grant = g.grant;
    listed = (same g.grant).0 g.listed;
    placed = g.placed;
    to = g.to;
    allows = g.allows;
    enough = g.enough;
  }

-- Two lists of the same entries, both in the order of the depth, give the same answer.
pub resolve-same :
    (es es' : List EffectiveAclEntry) (r : AccessLevel)
    → IsByDepth es
    → IsByDepth es'
    → ((x : EffectiveAclEntry) → In x es ↔ In x es')
    → resolve es r ≡ resolve es' r
resolve-same es es' r s s' same =
    same_answer (resolve es r) (resolve es' r)
      (λ h. (resolve_iff es' r s').1 (IsGranted-same es es' same r ((resolve_iff es r s).0 h)))
      (λ h.
        (resolve_iff es r s).1
          (IsGranted-same es' es (λ x. ((same x).1, (same x).0)) r ((resolve_iff es' r s').0 h)))

-- So they give the same level.
pub resolve_access_level-same :
    (es es' : List EffectiveAclEntry)
    → IsByDepth es
    → IsByDepth es'
    → ((x : EffectiveAclEntry) → In x es ↔ In x es')
    → resolve_access_level es ≡ resolve_access_level es'
unfolding resolve_access_level
resolve_access_level-same es es' s s' same =
    rw
      (
        resolve-same es es' admin s s' same,
        resolve-same es es' read_write s s' same,
        resolve-same es es' read s s' same,
      )
      refl
