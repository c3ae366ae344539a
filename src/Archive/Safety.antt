-- ===== src/Archive/Safety.antt =====
-- The objects of online versions under the pass of server/internal/service/archive/service.go.
use Prim.Native.String.{String}
use text.Mathlib.Text.{◌==◌ as str_eq}
use text.Mathlib.TextEquality.{eq_iff}
use file_share_manager.Prelude.{
  ℕ, ◌==◌, ◌≡◌, refl, sym, ap, ◌∙◌, subst, inl, inr, Bool, true, false, false≢true, ◌&&◌, not, List,
  [], ◌∷◌, Option, Result, err, ok, In, In-select, select-In, select, update_where-In, Bool-cases,
  if◌then◌else◌, and3_true,
}
use file_share_manager.Authorization.{is_nonempty}
use file_share_manager.Files.Model.{FileVersion}
use file_share_manager.Files.Scans.{is_online}
use file_share_manager.Archive.Candidates.{
  ArchiveCandidate, ArchiveTables, ArchiveError, archive_candidate_changed, has_key, is_open,
  archived_version, shortened, list_candidates, complete_archive, record_failure,
}
use file_share_manager.Archive.Completing.{
  locked, archived_tables, complete_archive-eq-ok, nonempty-In,
}
use file_share_manager.Archive.Passes.{
  ArchiveState, PutFailure, noted, archived_copy, committed, checked, archive_candidate,
  archive_each, run_archive,
}

-- A storage key belongs to one workspace, and the primary store has the object of every online
-- version.
pub record IsStored (s : ArchiveState) : Type 0 where
  pub one :
      (v w : FileVersion)
      → In v s.tables.versions
      → In w s.tables.versions
      → v.storage_key ≡ w.storage_key
      → v.workspace_id ≡ w.workspace_id
  pub present :
      (v : FileVersion)
      → In v s.tables.versions
      → is_online v.storage_class ≡ true
      → In v.storage_key s.objects

-- The version comes from an earlier one, and is stored when it is online and the earlier was.
abbrev ComesFrom : ArchiveState → ArchiveState → FileVersion → Type 0
ComesFrom s s' v =
    (x : FileVersion) × In x s.tables.versions
    × (v.workspace_id ≡ x.workspace_id)
    × (v.storage_key ≡ x.storage_key)
    × (is_online v.storage_class ≡ true → In x.storage_key s'.objects)

carry :
    (s s' : ArchiveState)
    → IsStored s
    → ((v : FileVersion) → In v s'.tables.versions → ComesFrom s s' v)
    → IsStored s'
carry s s' c from = record {
  one = λ v w i j e.
      let (x, k, a, b, _) = from v i in
      let (y, l, d, f, _) = from w j in a ∙ c.one x y k l (sym b ∙ e ∙ f) ∙ sym d;
  present = λ v i online.
      let (x, _, _, b, stays) = from v i in subst (λ key. In key s'.objects) (sym b) (stays online);
}

record_failure-IsStored :
    (c : ArchiveCandidate) (message : String) (s : ArchiveState)
    → IsStored s
    → IsStored (record s { tables = record_failure c message s.tables })
unfolding record_failure
record_failure-IsStored c message s d = carry s _ d (λ v i.
    let (x, j, e) =
      update_where-In (is_open c.workspace_id c.storage_key)
        (λ y. record y { archive_error = shortened message }) v s.tables.versions i in
    elim (Bool-cases (is_open c.workspace_id c.storage_key x)) [
      | inl t ↦ failed v x (shortened message) j (e ∙ rw t refl)
      | inr t ↦ failed v x x.archive_error j (e ∙ rw t refl)
    ])
  where
    failed :
        (v x : FileVersion) (m : String)
        → In x s.tables.versions
        → v ≡ record x { archive_error = m }
        → ComesFrom s s v
    failed v x m j e = (
      x,
      j,
      ap (λ (y : FileVersion). y.workspace_id) e,
      ap (λ (y : FileVersion). y.storage_key) e,
      λ online.
          d.present x j (sym (ap (λ (y : FileVersion). is_online y.storage_class) e) ∙ online),
    )

-- The primary store behind the removal of an object, which may fail.
abbrev left_behind : Bool → String → List String → List String
left_behind removed key objects =
    if removed then select (λ k. not (str_eq k key)) objects else objects

In-left_behind :
    (removed : Bool) (key x : String) (objects : List String)
    → In x objects
    → str_eq x key ≡ false
    → In x (left_behind removed key objects)
In-left_behind true key x objects i e = In-select _ x objects i (rw e refl)
In-left_behind false key x objects i e = i

-- A version in another workspace has another key than the candidate.
other-key :
    (c : ArchiveCandidate) (s : ArchiveState) (x : FileVersion)
    → IsStored s
    → is_nonempty (locked c s.tables) ≡ true
    → In x s.tables.versions
    → has_key c.workspace_id c.storage_key x ≡ false
    → str_eq x.storage_key c.storage_key ≡ false
other-key c s x d filled i e = elim (Bool-cases (str_eq x.storage_key c.storage_key)) [
  | inr t ↦ t
  | inl t ↦
      let (u, j) = nonempty-In (locked c s.tables) filled in
      let (k, o) = select-In _ u s.tables.versions j in
      let (a, b, _) = and3_true _ _ _ o in
      let same : x.workspace_id ≡ u.workspace_id =
        d.one x u i k ((eq_iff _ _).0 t ∙ sym ((eq_iff _ _).0 b)) in
      absurd (false≢true (sym e ∙ both (ap (λ w. w == c.workspace_id) same ∙ a) t))
]
  where
    both : {a b : Bool} → a ≡ true → b ≡ true → (a && b) ≡ true
    both p q = rw (p, q) refl

complete_archive-IsStored :
    (c : ArchiveCandidate) (cutoff : ℕ) (removed : Bool) (s : ArchiveState) (t : ArchiveTables)
    → IsStored s
    → complete_archive c cutoff s.tables ≡ ok t
    → IsStored (record { tables = t; objects = left_behind removed c.storage_key s.objects })
complete_archive-IsStored c cutoff removed s t d h =
    let (e, filled, _) = complete_archive-eq-ok c cutoff s.tables t h in
    subst (λ u. IsStored (after u)) (sym e)
      (carry s (after (archived_tables c s.tables)) d (λ v i.
        let (x, j, q) =
          update_where-In (has_key c.workspace_id c.storage_key) archived_version v
            s.tables.versions i in
        elim (Bool-cases (has_key c.workspace_id c.storage_key x)) [
          | inl k ↦ moved v x j (q ∙ rw k refl)
          | inr k ↦ kept v x j (q ∙ rw k refl) (other-key c s x d filled j k)
        ]))
  where
    after : ArchiveTables → ArchiveState
    after u = record { tables = u; objects = left_behind removed c.storage_key s.objects }

    moved :
        (v x : FileVersion)
        → In x s.tables.versions
        → v ≡ archived_version x
        → ComesFrom s (after (archived_tables c s.tables)) v
    moved v x j q = (
      x,
      j,
      ap (λ (y : FileVersion). y.workspace_id) q,
      ap (λ (y : FileVersion). y.storage_key) q,
      λ online.
          absurd
            (false≢true (sym (ap (λ (y : FileVersion). is_online y.storage_class) q) ∙ online)),
    )

    kept :
        (v x : FileVersion)
        → In x s.tables.versions
        → v ≡ x
        → str_eq x.storage_key c.storage_key ≡ false
        → ComesFrom s (after (archived_tables c s.tables)) v
    kept v x j q apart = (
      x,
      j,
      ap (λ (y : FileVersion). y.workspace_id) q,
      ap (λ (y : FileVersion). y.storage_key) q,
      λ online.
          In-left_behind removed c.storage_key x.storage_key s.objects
            (d.present x j (sym (ap (λ (y : FileVersion). is_online y.storage_class) q) ∙ online))
            apart,
    )

module _ (equal_fold : String → String → Bool) (opened : ArchiveCandidate → Option String)
    (put : ArchiveCandidate → Result PutFailure (ℕ × String))
    (closed : ArchiveCandidate → Option String)
    (verified : ArchiveCandidate → Result String (ℕ × String)) (removes : ArchiveCandidate → Bool)
    (cancelled : ArchiveCandidate → Bool) where
  committed-IsStored :
      (c : ArchiveCandidate) (cutoff : ℕ) (s : ArchiveState) (r : Result ArchiveError ArchiveTables)
      → IsStored s
      → complete_archive c cutoff s.tables ≡ r
      → IsStored (committed equal_fold opened put closed verified removes cancelled c r s).1
  committed-IsStored c cutoff s (err archive_candidate_changed) d h = d
  committed-IsStored c cutoff s (ok t) d h = complete_archive-IsStored c cutoff (removes c) s t d h

  checked-IsStored :
      (c : ArchiveCandidate) (cutoff : ℕ) (s : ArchiveState) (copy : Result String (ℕ × String))
      → IsStored s
      → IsStored (checked equal_fold opened put closed verified removes cancelled cutoff c copy s).1
  checked-IsStored c cutoff s (err message) d = d
  checked-IsStored c cutoff s (ok (size, digest)) d =
      elim (Bool-cases (size == c.size && equal_fold digest c.sha256)) [
        | inl e ↦ rw e (committed-IsStored c cutoff s _ d refl)
        | inr e ↦ rw e d
      ]

  noted-IsStored :
      (c : ArchiveCandidate) (outcome : Result String Bool) (s : ArchiveState)
      → IsStored s
      → IsStored (noted c outcome s)
  noted-IsStored c (ok migrated) s d = d
  noted-IsStored c (err message) s d = record_failure-IsStored c message s d

  archive_each-IsStored :
      (cutoff : ℕ) (candidates : List ArchiveCandidate) (n : ℕ) (s : ArchiveState)
      → IsStored s
      → IsStored
          (archive_each equal_fold opened put closed verified removes cancelled cutoff candidates n
            s).2
  unfolding archive_each archive_candidate
  archive_each-IsStored cutoff [] n s d = d
  archive_each-IsStored cutoff (c ∷ candidates) n s d = elim (Bool-cases (cancelled c)) [
    | inl e ↦ rw e d
    | inr e ↦ rw e (
        archive_each-IsStored cutoff candidates _ _ (
          noted-IsStored c _ _ (
            checked-IsStored c cutoff s
              (archived_copy equal_fold opened put closed verified removes cancelled c) d)))
  ]

  -- When every online version has its object in the primary store and no storage key belongs to two
  -- workspaces, a pass of the archive worker keeps both so: it removes no object of an online version.
  pub run_archive-IsStored :
      (cutoff limit : ℕ) (s : ArchiveState)
      → IsStored s
      → IsStored
          (run_archive equal_fold opened put closed verified removes cancelled cutoff limit s).2
  unfolding run_archive
  run_archive-IsStored cutoff limit s d =
      archive_each-IsStored cutoff (list_candidates cutoff limit s.tables.versions) 0 s d
