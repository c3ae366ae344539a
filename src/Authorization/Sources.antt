-- ===== src/Authorization/Sources.antt =====
-- The access summary of service.go, `resolveEffectiveSources`: the level that is shown to a user,
-- and the entries that it names as its sources.
pub mod Agreement
use Prim.Native.String.{String}
use file_share_manager.Prelude.{
  ℕ, ◌==◌, Bool, List, [], ◌∷◌, Option, none, some, select, map, if◌then◌else◌,
}
use file_share_manager.Authorization.{
  AccessLevel, SubjectType, user, group, Effect, EffectiveAclEntry, is_allow, is_nonempty,
  same_subject, resolve_access_level,
}

pub record EffectiveAclSource : Type 0 where
  pub depth : ℕ
  pub source_node_id : ℕ
  pub source_node_name : String
  pub subject_type : SubjectType
  pub subject_id : ℕ
  pub subject_name : String
  pub subject_source : String
  pub subject_ldap_dn : String
  pub effect : Effect
  pub access_level : AccessLevel
  pub inherit_to_children : Bool

-- The conversion in the loop that fills `raw`.
abbrev pub raw_entry : EffectiveAclSource → EffectiveAclEntry
raw_entry source = record {
  depth = source.depth;
  subject_type = source.subject_type;
  subject_id = source.subject_id;
  effect = source.effect;
  access_level = source.access_level;
}

unfoldable pub source_entries : List EffectiveAclSource → SubjectType → List EffectiveAclSource
source_entries entries subject_type = select (λ e. same_subject e.subject_type subject_type) entries

-- `entries[start:end]` behind its first entry.
unfoldable pub take_source_run : ℕ → List EffectiveAclSource → List EffectiveAclSource
take_source_run depth [] = []
take_source_run depth (e ∷ entries) =
    if e.depth == depth then e ∷ take_source_run depth entries else []

unfoldable pub decisive_sources : List EffectiveAclSource → List EffectiveAclSource
decisive_sources at_depth =
    if is_nonempty (source_entries at_depth user)
    then source_entries at_depth user
    else source_entries at_depth group

-- `if level := …; level != ""`: the sources are the entries that allow. `none` is the empty text.
unfoldable pub with_sources :
    Option AccessLevel → List EffectiveAclSource → Option AccessLevel × List EffectiveAclSource
with_sources none decisive = (none, [])
with_sources (some level) decisive = (some level, select (λ s. is_allow s.effect) decisive)

-- The loop returns in its first round.
unfoldable pub resolve_effective_sources :
    List EffectiveAclSource → Option AccessLevel × List EffectiveAclSource
unfolding with_sources
resolve_effective_sources [] = (none, [])
resolve_effective_sources (e ∷ entries) =
    let decisive = decisive_sources (e ∷ take_source_run e.depth entries) in
    with_sources (resolve_access_level (map raw_entry decisive)) decisive
