-- ===== src/Archive/Completing.antt =====
-- `Complete` of server/internal/dao/archive.go.
use Prim.Native.String.{String}
use text.Mathlib.Text.{◌==◌ as str_eq}
use text.Mathlib.TextEquality.{eq_iff}
use file_share_manager.Prelude.{
  ℕ, ltb, ◌==◌, ◌≤◌, ◌≡◌, ◌↔◌, refl, sym, ap, ◌∙◌, inl, inr, Bool, true, false, ◌&&◌, List, [], ◌∷◌,
  ◌++◌, map, Result, err, ok, arith, In, In-any, In-select, select-In, any, select, update_where,
  update_where-In, Bool-cases, false≢true,
}
use file_share_manager.Authorization.{is_nonempty}
use file_share_manager.Files.Model.{archive, FileVersion}
use file_share_manager.Shares.Store.{Share, ShareItem}
use file_share_manager.Downloads.Jobs.{BatchDownloadJob, BatchDownloadItem}
use file_share_manager.Archive.Candidates.{
  ArchiveCandidate, ArchiveTables, ArchiveError, archive_candidate_changed, last_access, has_key,
  is_open, archived_version, archived_item, archived_batch_item, is_shared, is_batched,
  archive_change, complete_archive,
}

-- The versions that the transaction locks.
abbrev pub locked : ArchiveCandidate → ArchiveTables → List FileVersion
locked c t = select (is_open c.workspace_id c.storage_key) t.versions

abbrev pub archived_tables : ArchiveCandidate → ArchiveTables → ArchiveTables
archived_tables c t = record t {
  versions = update_where (has_key c.workspace_id c.storage_key) archived_version t.versions;
  share_items = update_where (is_shared c t.shares) archived_item t.share_items;
  batch_items = update_where (is_batched c t.jobs) archived_batch_item t.batch_items;
  changes = t.changes ++ map (archive_change c) (locked c t);
}

abbrev pub is_late : ℕ → FileVersion → Bool
is_late cutoff v = ltb cutoff (last_access v)

module _ (c : ArchiveCandidate) (cutoff : ℕ) (t : ArchiveTables) where
  pub complete_archive-eq-ok :
      (t' : ArchiveTables)
      → complete_archive c cutoff t ≡ ok t'
      → (t' ≡ archived_tables c t)
        × (is_nonempty (locked c t) ≡ true)
        × (any (is_late cutoff) (locked c t) ≡ false)
  unfolding complete_archive
  complete_archive-eq-ok t' h = elim (Bool-cases (is_nonempty (locked c t))) [
    | inr e ↦ absurd (ok_ne (rw e at h))
    | inl e ↦ elim (Bool-cases (any (is_late cutoff) (locked c t))) [
      | inl f ↦ absurd (ok_ne (rw (e, f) at h))
      | inr f ↦ (ok_inj (rw (e, f) at h), e, f)
    ]
  ]
    where
      ok_ne :
          ◌≡◌ {A = Result ArchiveError ArchiveTables} (err archive_candidate_changed) (ok t') → ⊥
      ok_ne q = cc

      ok_inj :
          ◌≡◌ {A = Result ArchiveError ArchiveTables} (ok (archived_tables c t)) (ok t')
          → t' ≡ archived_tables c t
      ok_inj q = cc

  pub complete_archive-accepts :
      is_nonempty (locked c t) ≡ true
      → any (is_late cutoff) (locked c t) ≡ false
      → complete_archive c cutoff t ≡ ok (archived_tables c t)
  unfolding complete_archive
  complete_archive-accepts e f = rw (e, f) refl

str_eq_of : (a b : String) → a ≡ b → str_eq a b ≡ true
str_eq_of a b e = (eq_iff a b).1 e

==_of : (a b : ℕ) → a ≡ b → (a == b) ≡ true
==_of a b e = ground arith

both : {a b : Bool} → a ≡ true → b ≡ true → (a && b) ≡ true
both p q = rw (p, q) refl

-- No row that passes the test of the update is left in another class.
updated-class :
    {A B : Type 0} (p : A → Bool) (f : A → A) (class : A → B) (target : B) (xs : List A) (y : A)
    → ((x : A) → class (f x) ≡ target)
    → In y (update_where p f xs)
    → p y ≡ true
    → class y ≡ target
updated-class p f class target xs y set i t =
    let (x, j, e) = update_where-In p f y xs i in
    elim (Bool-cases (p x)) [
      | inl k ↦ ap class (e ∙ rw k refl) ∙ set x
      | inr k ↦ absurd (false≢true (sym k ∙ sym (ap p (e ∙ rw k refl)) ∙ t))
    ]

pub nonempty-In : {A : Type 0} (xs : List A) → is_nonempty xs ≡ true → (x : A) × In x xs
nonempty-In [] h = absurd (false≢true h)
nonempty-In (x ∷ xs) h = (x, inl refl)

In-nonempty : {A : Type 0} (x : A) (xs : List A) → In x xs → is_nonempty xs ≡ true
In-nonempty x [] h = absurd h
In-nonempty x (y ∷ xs) h = refl

any-none :
    {A : Type 0} (p : A → Bool) (xs : List A) → ((x : A) → In x xs → p x ≡ false) → any p xs ≡ false
any-none p [] h = refl
any-none p (x ∷ xs) h = rw (h x (inl refl)) (any-none p xs (λ y i. h y (inr i)))

none-any :
    {A : Type 0} (p : A → Bool) (x : A) (xs : List A) → any p xs ≡ false → In x xs → p x ≡ false
none-any p x xs h i = elim (Bool-cases (p x)) [
  | inl e ↦ absurd (false≢true (sym h ∙ In-any p x xs i e))
  | inr e ↦ e
]

at_most : (a b : ℕ) → ltb b a ≡ false → a ≤ b
at_most a b h = ground arith

not_late : (a b : ℕ) → a ≤ b → ltb b a ≡ false
not_late a b h = ground arith

-- A candidate is archived exactly when a version of its key has the empty or the standard class (a
-- column without a value does not count) and no such version was used after the cutoff.
pub complete_archive_iff :
    (c : ArchiveCandidate) (cutoff : ℕ) (t : ArchiveTables)
    → ((t' : ArchiveTables) × (complete_archive c cutoff t ≡ ok t')) ↔ (
        ((v : FileVersion) × In v t.versions × (is_open c.workspace_id c.storage_key v ≡ true))
        × ((v : FileVersion)
            → In v t.versions
            → is_open c.workspace_id c.storage_key v ≡ true
            → last_access v ≤ cutoff))
complete_archive_iff c cutoff t = (
  λ (t', h).
      let (_, e, f) = complete_archive-eq-ok c cutoff t t' h in
      let (v, i) = nonempty-In (locked c t) e in
      let (j, k) = select-In _ v t.versions i in
      (
        (v, j, k),
        λ w l m.
            at_most (last_access w) cutoff
              (none-any (is_late cutoff) w (locked c t) f (In-select _ w t.versions l m)),
      ),
  λ ((v, i, k), cold). (
    archived_tables c t,
    complete_archive-accepts c cutoff t (In-nonempty v (locked c t) (In-select _ v t.versions i k))
        (any-none (is_late cutoff) (locked c t) (λ w l.
          let (m, q) = select-In _ w t.versions l in not_late (last_access w) cutoff (cold w m q))),
  ),
)

-- A completed archive leaves no version of the key, no item of a share of the workspace and no item
-- of a batch download of the workspace with that key in another class than the archive.
pub complete_archive-archived :
    (c : ArchiveCandidate) (cutoff : ℕ) (t t' : ArchiveTables)
    → complete_archive c cutoff t ≡ ok t'
    → ((v : FileVersion)
        → In v t'.versions
        → v.workspace_id ≡ c.workspace_id
        → v.storage_key ≡ c.storage_key
        → v.storage_class ≡ archive)
      × ((i : ShareItem) (s : Share)
          → In i t'.share_items
          → In s t'.shares
          → i.storage_key ≡ c.storage_key
          → s.workspace_id ≡ c.workspace_id
          → s.id ≡ i.share_id
          → i.storage_class ≡ archive)
      × ((i : BatchDownloadItem) (j : BatchDownloadJob)
          → In i t'.batch_items
          → In j t'.jobs
          → i.storage_key ≡ c.storage_key
          → j.workspace_id ≡ c.workspace_id
          → j.id ≡ i.job_id
          → i.storage_class ≡ "archive")
complete_archive-archived c cutoff t t' h =
    let (e, _, _) = complete_archive-eq-ok c cutoff t t' h in
    rw e (
      λ v i a b.
          updated-class (has_key c.workspace_id c.storage_key) archived_version
            (λ x. x.storage_class) archive t.versions v (λ x. refl) i
            (both (==_of _ _ a) (str_eq_of _ _ b)),
      λ i s j k a b d.
          updated-class (is_shared c t.shares) archived_item (λ x. x.storage_class) archive
            t.share_items i (λ x. refl) j
            (both (str_eq_of _ _ a) (In-any _ s t.shares k (both (==_of _ _ b) (==_of _ _ d)))),
      λ i s j k a b d.
          updated-class (is_batched c t.jobs) archived_batch_item (λ x. x.storage_class) "archive"
            t.batch_items i (λ x. refl) j
            (both (str_eq_of _ _ a) (In-any _ s t.jobs k (both (==_of _ _ b) (str_eq_of _ _ d)))),
    )
