-- ===== src/Archive/Listing.antt =====
-- `ListCandidates` of server/internal/dao/archive.go beside `Complete`.
use text.Mathlib.TextEquality.{eq_iff}
use file_share_manager.Prelude.{
  ℕ, zero, suc, leb, max, ==_refl, ◌≤◌, ◌≡◌, refl, sym, subst, inl, inr, true, List, [], ◌∷◌, ok,
  arith, In, map-In, select-In, In-select, any, sort_by-In, take, Bool-cases,
}
use file_share_manager.Files.Model.{FileVersion}
use file_share_manager.Archive.Candidates.{
  is_standard, ArchiveCandidate, ArchiveTables, last_access, has_key, is_open, group_rows, greatest,
  group_of, candidate_of, list_candidates, complete_archive,
}
use file_share_manager.Archive.Completing.{complete_archive_iff}

take-In : {A : Type 0} (n : ℕ) (x : A) (xs : List A) → In x (take n xs) → In x xs
take-In zero x xs h = absurd h
take-In (suc n) x [] h = absurd h
take-In (suc n) x (y ∷ xs) (inl e) = inl e
take-In (suc n) x (y ∷ xs) (inr h) = inr (take-In n x xs h)

group_rows-In :
    (x : FileVersion) (versions : List FileVersion) → In x (group_rows versions) → In x versions
group_rows-In x [] h = absurd h
group_rows-In x (v ∷ versions) h =
    elim (Bool-cases (any (has_key v.workspace_id v.storage_key) versions)) [
      | inl e ↦ inr (group_rows-In x versions (rw e at h))
      | inr e ↦ elim (rw e at h) [ inl q ↦ inl q | inr i ↦ inr (group_rows-In x versions i) ]
    ]

In-greatest :
    (value : FileVersion → ℕ) (x : FileVersion) (versions : List FileVersion)
    → In x versions
    → value x ≤ greatest value versions
In-greatest value x [] h = absurd h
In-greatest value x (v ∷ versions) (inl e) =
    subst (λ y. value y ≤ max (value v) (greatest value versions)) (sym e)
      (left (value v) (greatest value versions))
  where
    left : (a b : ℕ) → a ≤ max a b
    left a b = omega arith
In-greatest value x (v ∷ versions) (inr h) =
    right (value x) (value v) (greatest value versions) (In-greatest value x versions h)
  where
    right : (x a b : ℕ) → x ≤ b → x ≤ max a b
    right x a b h = omega arith

row-is_open :
    (v : FileVersion)
    → is_standard v.storage_class ≡ true
    → is_open v.workspace_id v.storage_key v ≡ true
row-is_open v h = rw (==_refl v.workspace_id, (eq_iff v.storage_key v.storage_key).1 refl, h) refl

-- A listed candidate, archived at once and with the same cutoff, is accepted.
pub list_candidates-complete_archive :
    (c : ArchiveCandidate) (cutoff limit : ℕ) (t : ArchiveTables)
    → In c (list_candidates cutoff limit t.versions)
    → (t' : ArchiveTables) × (complete_archive c cutoff t ≡ ok t')
unfolding list_candidates
list_candidates-complete_archive c cutoff limit t h =
    let (v, i, e) = map-In _ c _ h in
    let (j, cold) = select-In _ v _ (sort_by-In _ v _ (take-In limit v _ i)) in
    let (k, online) = select-In _ v t.versions (group_rows-In v _ j) in
    subst (λ d. (t' : ArchiveTables) × (complete_archive d cutoff t ≡ ok t')) (sym e)
      ((complete_archive_iff (candidate_of t.versions v) cutoff t).1 (
        (v, k, row-is_open v online),
        λ w l m.
            under (last_access w) _ cutoff
              (In-greatest last_access w (group_of v t.versions) (In-select _ w t.versions l m))
              cold,
      ))
  where
    under : (a b c : ℕ) → a ≤ b → leb b c ≡ true → a ≤ c
    under a b c p q = ground arith
