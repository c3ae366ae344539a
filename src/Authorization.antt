-- ===== src/Authorization.antt =====
-- The precedence rules of server/internal/service/authorization/service.go: which access level the
-- access-control entries of a node and of its ancestors give to one user.
pub mod Runs
pub mod Granted
pub mod Nearest
pub mod Decision
pub mod Levels
pub mod Sources
pub mod Order
use Prim.Native.String.{String}
use file_share_manager.Prelude.{
  ℕ, zero, suc, ◌==◌, Bool, true, false, ◌&&◌, List, [], ◌∷◌, Option, none, some, leb, length,
  select, any, map, if◌then◌else◌,
}

-- `other` stands for every text that is none of the three constants.
pub data AccessLevel : Type 0 where
  read read_write admin : AccessLevel
  other : String → AccessLevel

pub data SubjectType : Type 0 where
  user group : SubjectType
  other : String → SubjectType

pub data Effect : Type 0 where
  allow deny : Effect
  other : String → Effect

pub record EffectiveAclEntry : Type 0 where
  pub depth : ℕ
  pub subject_type : SubjectType
  pub subject_id : ℕ
  pub effect : Effect
  pub access_level : AccessLevel

unfoldable pub access_rank : AccessLevel → ℕ
access_rank read = 1
access_rank read_write = 2
access_rank admin = 3
access_rank (AccessLevel.other _) = 100

abbrev pub same_subject : SubjectType → SubjectType → Bool
same_subject user user = true
same_subject group group = true
same_subject _ _ = false

abbrev pub is_deny : Effect → Bool
is_deny deny = true
is_deny _ = false

abbrev pub is_allow : Effect → Bool
is_allow allow = true
is_allow _ = false

abbrev pub is_nonempty {ℓ} : {A : Type ℓ} → List A → Bool
is_nonempty [] = false
is_nonempty (_ ∷ _) = true

-- `subjectEntries`, at the subject types `user` and `group` with which it is called.
unfoldable pub subject_entries : List EffectiveAclEntry → SubjectType → List EffectiveAclEntry
subject_entries entries subject_type =
    select (λ e. same_subject e.subject_type subject_type) entries

unfoldable pub entries_allow : List EffectiveAclEntry → AccessLevel → Bool
unfolding access_rank
entries_allow entries required =
    if any (λ e. is_deny e.effect) entries
    then false
    else any (λ e. is_allow e.effect && leb (access_rank required) (access_rank e.access_level))
        entries

-- `entries[start:end]` behind its first entry: as long as the depth stays the same.
unfoldable pub take_run : ℕ → List EffectiveAclEntry → List EffectiveAclEntry
take_run depth [] = []
take_run depth (e ∷ entries) = if e.depth == depth then e ∷ take_run depth entries else []

-- `entries[end:]`.
unfoldable pub drop_run : ℕ → List EffectiveAclEntry → List EffectiveAclEntry
drop_run depth [] = []
drop_run depth (e ∷ entries) = if e.depth == depth then drop_run depth entries else e ∷ entries

-- The loop of `Resolve`: each round takes off one depth.
unfoldable pub resolve_from : ℕ → List EffectiveAclEntry → AccessLevel → Bool
resolve_from zero entries required = false
resolve_from (suc fuel) [] required = false
resolve_from (suc fuel) (e ∷ entries) required =
    let at_depth = e ∷ take_run e.depth entries in
    let rest = resolve_from fuel (drop_run e.depth entries) required in
    if is_nonempty (subject_entries at_depth user)
    then entries_allow (subject_entries at_depth user) required
    else if is_nonempty (subject_entries at_depth group)
    then entries_allow (subject_entries at_depth group) required
    else rest

unfoldable pub resolve : List EffectiveAclEntry → AccessLevel → Bool
resolve entries required = resolve_from (length entries) entries required

-- `none` is the empty text.
unfoldable pub resolve_access_level : List EffectiveAclEntry → Option AccessLevel
resolve_access_level entries =
    if resolve entries admin
    then some admin
    else if resolve entries read_write
    then some read_write
    else if resolve entries read
    then some read
    else none
