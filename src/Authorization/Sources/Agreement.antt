-- ===== src/Authorization/Sources/Agreement.antt =====
-- `resolveEffectiveSources` beside `ResolveAccessLevel`, of
-- server/internal/service/authorization/service.go.
use file_share_manager.Prelude.{
  ℕ, ◌≡◌, refl, sym, ap, ◌∙◌, ◌⊎◌, inl, inr, true, false, List, [], ◌∷◌, Option, none, some, arith,
  map, Bool-cases,
}
use file_share_manager.Authorization.{
  AccessLevel, read, read_write, admin, SubjectType, user, group, EffectiveAclEntry, is_nonempty,
  subject_entries, entries_allow, take_run, resolve_from, resolve, resolve_access_level,
}
use file_share_manager.Authorization.Sources.{
  EffectiveAclSource, raw_entry, source_entries, take_source_run, decisive_sources,
  resolve_effective_sources, with_sources,
}

-- The query returns rows for users and groups only.
abbrev pub AreNamed : List EffectiveAclSource → Type 0
AreNamed [] = Unit
AreNamed (e ∷ es) = ((e.subject_type ≡ user) ⊎ (e.subject_type ≡ group)) × AreNamed es

-- All entries stand at one depth, and are for one kind of subject.
abbrev IsUniform : ℕ → SubjectType → List EffectiveAclEntry → Type 0
IsUniform d t [] = Unit
IsUniform d t (e ∷ es) = (e.depth ≡ d) × (e.subject_type ≡ t) × IsUniform d t es

map-take_run :
    (d : ℕ) (es : List EffectiveAclSource)
    → map raw_entry (take_source_run d es) ≡ take_run d (map raw_entry es)
unfolding take_run take_source_run
map-take_run d [] = refl
map-take_run d (e ∷ es) = ground (arith, map-take_run d es)

map-subject_entries :
    (t : SubjectType) (es : List EffectiveAclSource)
    → map raw_entry (source_entries es t) ≡ subject_entries (map raw_entry es) t
unfolding source_entries subject_entries
map-subject_entries t [] = refl
map-subject_entries t (e ∷ es) = ground (arith, map-subject_entries t es)

nonempty-map : (es : List EffectiveAclSource) → is_nonempty (map raw_entry es) ≡ is_nonempty es
nonempty-map [] = refl
nonempty-map (e ∷ es) = refl

take_run_uniform :
    (d : ℕ) (t : SubjectType) (es : List EffectiveAclEntry) → IsUniform d t es → take_run d es ≡ es
unfolding take_run
take_run_uniform d t [] u = refl
take_run_uniform d t (e ∷ es) u = ground (arith, take_run_uniform d t es u.2)

user_entries_uniform :
    (d : ℕ) (es : List EffectiveAclEntry) → IsUniform d user es → subject_entries es user ≡ es
unfolding subject_entries
user_entries_uniform d [] u = refl
user_entries_uniform d (e ∷ es) u = ground (arith, user_entries_uniform d es u.2)

group_entries_uniform :
    (d : ℕ) (es : List EffectiveAclEntry)
    → IsUniform d group es
    → (subject_entries es group ≡ es) × (subject_entries es user ≡ [])
unfolding subject_entries
group_entries_uniform d [] u = (refl, refl)
group_entries_uniform d (e ∷ es) u = ground (arith, group_entries_uniform d es u.2)

resolve-users :
    (d : ℕ) (es : List EffectiveAclEntry) (r : AccessLevel)
    → IsUniform d user es
    → resolve es r ≡ entries_allow es r
unfolding resolve resolve_from entries_allow
resolve-users d [] r u = refl
resolve-users d (e ∷ es) r u =
    let same : take_run e.depth es ≡ es = rw u.0 (take_run_uniform d user es u.2) in
    rw (same, user_entries_uniform d (e ∷ es) u) refl

resolve-groups :
    (d : ℕ) (es : List EffectiveAclEntry) (r : AccessLevel)
    → IsUniform d group es
    → resolve es r ≡ entries_allow es r
unfolding resolve resolve_from entries_allow
resolve-groups d [] r u = refl
resolve-groups d (e ∷ es) r u =
    let same : take_run e.depth es ≡ es = rw u.0 (take_run_uniform d group es u.2) in
    let groups = group_entries_uniform d (e ∷ es) u in rw (same, groups.1, groups.0) refl

IsUniform-take_run :
    (d : ℕ) (t : SubjectType) (es : List EffectiveAclEntry)
    → (t ≡ user) ⊎ (t ≡ group)
    → IsUniform d t (subject_entries (take_run d es) t)
unfolding subject_entries take_run
IsUniform-take_run d t [] k = tt
IsUniform-take_run d t (e ∷ es) k = ground (arith, IsUniform-take_run d t es k)

IsUniform-subject_entries :
    (t : SubjectType) (e : EffectiveAclEntry) (es : List EffectiveAclEntry)
    → (t ≡ user) ⊎ (t ≡ group)
    → IsUniform e.depth t (subject_entries (e ∷ take_run e.depth es) t)
unfolding subject_entries
IsUniform-subject_entries t e es k =
    unfold subject_entries in ground (arith, IsUniform-take_run e.depth t es k)

head_named :
    (e : EffectiveAclSource) (es : List EffectiveAclSource)
    → (e.subject_type ≡ user) ⊎ (e.subject_type ≡ group)
    → is_nonempty (source_entries (e ∷ es) user) ≡ false
    → is_nonempty (source_entries (e ∷ es) group) ≡ true
unfolding source_entries
head_named e es k h = ground arith

module _ (e : EffectiveAclSource) (es : List EffectiveAclSource) where
  mapped :
      (t : SubjectType)
      → map raw_entry (source_entries (e ∷ take_source_run e.depth es) t)
        ≡ subject_entries (raw_entry e ∷ take_run e.depth (map raw_entry es)) t
  mapped t =
      map-subject_entries t (e ∷ take_source_run e.depth es)
      ∙ ap (λ l. subject_entries (raw_entry e ∷ l) t) (map-take_run e.depth es)

  mapped_nonempty :
      (t : SubjectType)
      → is_nonempty (subject_entries (raw_entry e ∷ take_run e.depth (map raw_entry es)) t)
        ≡ is_nonempty (source_entries (e ∷ take_source_run e.depth es) t)
  mapped_nonempty t = ap is_nonempty (sym (mapped t)) ∙ nonempty-map _

  module _ (r : AccessLevel) where
    -- The head of the list names a user or a group, so its depth decides.
    resolve-decisive :
        (e.subject_type ≡ user) ⊎ (e.subject_type ≡ group)
        → resolve (map raw_entry (e ∷ es)) r
          ≡ entries_allow (map raw_entry (decisive_sources (e ∷ take_source_run e.depth es))) r
    unfolding resolve resolve_from decisive_sources
    resolve-decisive k =
        elim (Bool-cases (is_nonempty (source_entries (e ∷ take_source_run e.depth es) user))) [
          | inl u ↦ rw (mapped_nonempty user, u, mapped user) refl
          | inr u ↦
              rw
                (
                  mapped_nonempty user,
                  u,
                  mapped_nonempty group,
                  head_named e (take_source_run e.depth es) k u,
                  mapped group,
                )
                refl
        ]

    resolve-raw :
        resolve (map raw_entry (decisive_sources (e ∷ take_source_run e.depth es))) r
        ≡ entries_allow (map raw_entry (decisive_sources (e ∷ take_source_run e.depth es))) r
    unfolding decisive_sources
    resolve-raw =
        elim (Bool-cases (is_nonempty (source_entries (e ∷ take_source_run e.depth es) user))) [
          | inl u ↦
              rw (u, mapped user)
                (resolve-users e.depth _ r
                  (IsUniform-subject_entries user (raw_entry e) _ (inl refl)))
          | inr u ↦
              rw (u, mapped group)
                (resolve-groups e.depth _ r
                  (IsUniform-subject_entries group (raw_entry e) _ (inr refl)))
        ]

resolve_access_level_ext :
    (es es' : List EffectiveAclEntry)
    → ((r : AccessLevel) → resolve es r ≡ resolve es' r)
    → resolve_access_level es ≡ resolve_access_level es'
unfolding resolve_access_level
resolve_access_level_ext es es' h = rw (h admin, h read_write, h read) refl

level_of_sources :
    (level : Option AccessLevel) (l : List EffectiveAclSource) → (with_sources level l).0 ≡ level
unfolding with_sources
level_of_sources none l = refl
level_of_sources (some level) l = refl

resolve_access_level-nil : resolve_access_level [] ≡ none
unfolding resolve_access_level resolve resolve_from
resolve_access_level-nil = refl

-- The level of the summary is the level that the check enforces on the same entries, where the
-- entries are for users and groups.
pub resolve_effective_sources-level :
    (es : List EffectiveAclSource)
    → AreNamed es
    → (resolve_effective_sources es).0 ≡ resolve_access_level (map raw_entry es)
unfolding resolve_effective_sources
resolve_effective_sources-level [] n = sym resolve_access_level-nil
resolve_effective_sources-level (e ∷ es) n =
    level_of_sources _ _
    ∙ resolve_access_level_ext _ _ (λ r. resolve-raw e es r ∙ sym (resolve-decisive e es r n.0))
