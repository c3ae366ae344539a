-- ===== src/Authorization/Levels.antt =====
-- The answers of `Resolve` of server/internal/service/authorization/service.go at its levels, and
-- `ResolveAccessLevel`.
use file_share_manager.Prelude.{
  ℕ, zero, suc, ◌≤◌, ◌≡◌, ◌⊎◌, true, List, [], ◌∷◌, Option, none, some, arith, leb, length,
}
use file_share_manager.Authorization.{
  AccessLevel, read, read_write, admin, user, group, EffectiveAclEntry, access_rank,
  subject_entries, entries_allow, take_run, drop_run, resolve_from, resolve, resolve_access_level,
}
use file_share_manager.Authorization.Runs.{entries_allow_sound, entries_allow_complete}

-- One of the three levels that the program grants.
abbrev pub IsKnown : AccessLevel → Type 0
IsKnown r = (r ≡ read) ⊎ (r ≡ read_write) ⊎ (r ≡ admin)

-- The empty text ranks below every level.
unfoldable pub level_rank : Option AccessLevel → ℕ
unfolding access_rank
level_rank none = 0
level_rank (some level) = access_rank level

entries_allow_mono :
    (es : List EffectiveAclEntry) (r r' : AccessLevel)
    → access_rank r ≤ access_rank r'
    → entries_allow es r' ≡ true
    → entries_allow es r ≡ true
entries_allow_mono es r r' l h =
    let (undenied, found) = entries_allow_sound es r' h in
    let (g, i, a, k) = found in entries_allow_complete es r g undenied i a (omega arith)

resolve_from_mono :
    (fuel : ℕ) (es : List EffectiveAclEntry) (r r' : AccessLevel)
    → access_rank r ≤ access_rank r'
    → resolve_from fuel es r' ≡ true
    → resolve_from fuel es r ≡ true
unfolding resolve_from
resolve_from_mono zero es r r' l h = h
resolve_from_mono (suc fuel) [] r r' l h = h
resolve_from_mono (suc fuel) (e ∷ es) r r' l h = ground (
  arith,
  entries_allow_mono (subject_entries (e ∷ take_run e.depth es) user) r r' l,
  entries_allow_mono (subject_entries (e ∷ take_run e.depth es) group) r r' l,
  resolve_from_mono fuel (drop_run e.depth es) r r' l,
)

-- Whoever has a level has every level that ranks no higher.
pub resolve_mono :
    (es : List EffectiveAclEntry) (r r' : AccessLevel)
    → access_rank r ≤ access_rank r'
    → resolve es r' ≡ true
    → resolve es r ≡ true
unfolding resolve
resolve_mono es r r' l h = resolve_from_mono (length es) es r r' l h

-- `ResolveAccessLevel` loses nothing: a check for one of the three levels passes exactly when the
-- level ranks no higher than the reported one.
pub resolve-level_rank :
    (es : List EffectiveAclEntry) (r : AccessLevel)
    → IsKnown r
    → resolve es r ≡ leb (access_rank r) (level_rank (resolve_access_level es))
unfolding resolve_access_level level_rank access_rank
resolve-level_rank es r k = ground (
  arith,
  resolve_mono es read read_write (omega arith),
  resolve_mono es read admin (omega arith),
  resolve_mono es read_write admin (omega arith),
)
