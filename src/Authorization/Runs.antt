-- ===== src/Authorization/Runs.antt =====
-- The runs of entries of equal depth, and what the entries of one kind of subject allow.
use file_share_manager.Prelude.{
  ℕ, ◌≤◌, ◌<◌, ◌==◌, ◌≡◌, ◌≢◌, inl, inr, refl, sym, true, false, false≢true, ◌∙◌, List, [], ◌∷◌,
  arith, length, any, In, In-select, select-In, any-In, In-any, Bool-cases,
}
use file_share_manager.Authorization.{
  AccessLevel, SubjectType, allow, deny, EffectiveAclEntry, access_rank, same_subject, is_deny,
  is_nonempty, subject_entries, entries_allow, take_run, drop_run,
}

-- The order in which the query returns the entries.
abbrev pub IsByDepth : List EffectiveAclEntry → Type 0
IsByDepth [] = Unit
IsByDepth (e ∷ es) = ((x : EffectiveAclEntry) → In x es → e.depth ≤ x.depth) × IsByDepth es

-- The entry is for the user or for one of the user's groups.
abbrev pub IsFor : SubjectType → EffectiveAclEntry → Type 0
IsFor t x = same_subject x.subject_type t ≡ true

pub take_run-In :
    (d : ℕ) (es : List EffectiveAclEntry) (x : EffectiveAclEntry)
    → In x (take_run d es)
    → In x es × (x.depth ≡ d)
unfolding take_run
take_run-In d [] x h = absurd h
take_run-In d (e ∷ es) x h = ground (arith, take_run-In d es x)

pub In-take_run :
    (d : ℕ) (es : List EffectiveAclEntry) (x : EffectiveAclEntry)
    → IsByDepth es
    → ((y : EffectiveAclEntry) → In y es → d ≤ y.depth)
    → In x es
    → x.depth ≡ d
    → In x (take_run d es)
unfolding take_run
In-take_run d [] x s low h e = absurd h
In-take_run d (y ∷ es) x s low (inl h) e = ground arith
In-take_run d (y ∷ es) x s low (inr h) e =
    ground (arith, s.0 x h, low y (inl refl), In-take_run d es x s.1 (λ z i. low z (inr i)) h e)

pub drop_run-In :
    (d : ℕ) (es : List EffectiveAclEntry) (x : EffectiveAclEntry)
    → IsByDepth es
    → ((y : EffectiveAclEntry) → In y es → d ≤ y.depth)
    → In x (drop_run d es)
    → In x es × (d < x.depth)
unfolding drop_run
drop_run-In d [] x s low h = absurd h
drop_run-In d (y ∷ es) x s low h = elim (Bool-cases (y.depth == d)) [
  | inl e ↦ let (i, l) = drop_run-In d es x s.1 (λ z i. low z (inr i)) (rw e at h) in (inr i, l)
  | inr e ↦ past (rw e at h) e
]
  where
    past : In x (y ∷ es) → (y.depth == d) ≡ false → In x (y ∷ es) × (d < x.depth)
    past (inl h) e = (inl h, ground (arith, low y (inl refl)))
    past (inr h) e = (inr h, ground (arith, low y (inl refl), s.0 x h))

pub In-drop_run :
    (d : ℕ) (es : List EffectiveAclEntry) (x : EffectiveAclEntry)
    → In x es
    → x.depth ≢ d
    → In x (drop_run d es)
unfolding drop_run
In-drop_run d [] x h n = absurd h
In-drop_run d (y ∷ es) x (inl h) n = ground arith
In-drop_run d (y ∷ es) x (inr h) n = ground (arith, In-drop_run d es x h n)

pub IsByDepth-drop_run :
    (d : ℕ) (es : List EffectiveAclEntry) → IsByDepth es → IsByDepth (drop_run d es)
unfolding drop_run
IsByDepth-drop_run d [] s = tt
IsByDepth-drop_run d (e ∷ es) s = ground (arith, IsByDepth-drop_run d es s.1)

pub length-drop_run : (d : ℕ) (es : List EffectiveAclEntry) → length (drop_run d es) ≤ length es
unfolding drop_run
length-drop_run d [] = omega arith
length-drop_run d (e ∷ es) = ground (arith, length-drop_run d es)

pub entries_allow_sound :
    (es : List EffectiveAclEntry) (r : AccessLevel)
    → entries_allow es r ≡ true
    → ((x : EffectiveAclEntry) → In x es → x.effect ≢ deny)
      × ((g : EffectiveAclEntry) × In g es
          × (g.effect ≡ allow)
          × (access_rank r ≤ access_rank g.access_level))
unfolding entries_allow
entries_allow_sound es r h = elim (Bool-cases (any (λ e. is_deny e.effect) es)) [
  | inl d ↦ absurd (false≢true (rw d at h))
  | inr d ↦
      let (g, i, t) = any-In _ es (rw d at h) in
      (
        λ x j e. false≢true (sym d ∙ In-any (λ e. is_deny e.effect) x es j (rw e refl)),
        (g, i, ground arith, ground arith),
      )
]

pub entries_allow_complete :
    (es : List EffectiveAclEntry) (r : AccessLevel) (g : EffectiveAclEntry)
    → ((x : EffectiveAclEntry) → In x es → x.effect ≢ deny)
    → In g es
    → g.effect ≡ allow
    → access_rank r ≤ access_rank g.access_level
    → entries_allow es r ≡ true
unfolding entries_allow
entries_allow_complete es r g undenied i a l = elim (Bool-cases (any (λ e. is_deny e.effect) es)) [
  | inl d ↦ let (x, j, t) = any-In _ es d in absurd (undenied x j (ground arith))
  | inr d ↦ rw d (In-any _ g es i (ground arith))
]

module _ (t : SubjectType) where
  pub subject-In :
      (es : List EffectiveAclEntry) (x : EffectiveAclEntry)
      → In x (subject_entries es t)
      → In x es × IsFor t x
  unfolding subject_entries
  subject-In es x = select-In (λ e. same_subject e.subject_type t) x es

  pub In-subject :
      (es : List EffectiveAclEntry) (x : EffectiveAclEntry)
      → In x es
      → IsFor t x
      → In x (subject_entries es t)
  unfolding subject_entries
  In-subject es x = In-select (λ e. same_subject e.subject_type t) x es

  pub nonempty-In :
      (es : List EffectiveAclEntry)
      → is_nonempty (subject_entries es t) ≡ true
      → (x : EffectiveAclEntry) × In x es × IsFor t x
  nonempty-In es h = go (subject_entries es t) h (subject-In es)
    where
      go :
          (l : List EffectiveAclEntry)
          → is_nonempty l ≡ true
          → ((x : EffectiveAclEntry) → In x l → In x es × IsFor t x)
          → (x : EffectiveAclEntry) × In x es × IsFor t x
      go [] h f = absurd (false≢true h)
      go (x ∷ l) h f = let (i, k) = f x (inl refl) in (x, i, k)

  pub In-nonempty :
      (es : List EffectiveAclEntry) (x : EffectiveAclEntry)
      → is_nonempty (subject_entries es t) ≡ false
      → In x es
      → ¬ IsFor t x
  In-nonempty es x h i f = go (subject_entries es t) h (In-subject es x i f)
    where
      go : (l : List EffectiveAclEntry) → is_nonempty l ≡ false → In x l → ⊥
      go [] h k = k
      go (y ∷ l) h k = false≢true (sym h)
