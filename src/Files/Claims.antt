-- ===== src/Files/Claims.antt =====
-- Two workers that claim the same retry of a scan: `ClaimScanRetry` of server/internal/dao/file.go.
use file_share_manager.Prelude.{
  ℕ, ◌==◌, true, false, false≢true, List, [], ◌∷◌, none, some, ◌≡◌, refl, sym, ap, subst, inl, inr,
  find_first, find_first_sound, Bool-cases, Option-cases, arith,
}
use file_share_manager.Files.Model.{FileVersion}
use file_share_manager.Files.Scans.{
  Store, is_claimable, claimed, update_found, update_version, claim_scan_retry,
}

claimable_id : (id k : ℕ) (v : FileVersion) → is_claimable id k v ≡ true → v.id ≡ id
unfolding is_claimable
claimable_id id k v h = ground arith

other_id : (id k : ℕ) (v : FileVersion) → (v.id == id) ≡ false → is_claimable id k v ≡ false
unfolding is_claimable
other_id id k v h = rw h refl

claimed_row :
    (id k at : ℕ) (v : FileVersion)
    → (v.id == id) ≡ true
    → is_claimable id k (claimed k at v) ≡ false
unfolding is_claimable
claimed_row id k at v h = rw h refl

none_left :
    (id k at : ℕ) (versions : List FileVersion)
    → find_first (is_claimable id k) (update_version id (claimed k at) versions) ≡ none
none_left id k at [] = refl
none_left id k at (v ∷ versions) = elim (Bool-cases (v.id == id)) [
  | inl t ↦ rw (t, claimed_row id k at v t, none_left id k at versions) refl
  | inr t ↦ rw (t, other_id id k v t, none_left id k at versions) refl
]

-- After a claim that was granted, a second claim with the same count is refused and changes nothing.
pub claim_scan_retry-once :
    (id k at later : ℕ) (s : Store)
    → (claim_scan_retry id k at s).0 ≡ true
    → claim_scan_retry id k later (claim_scan_retry id k at s).1
      ≡ (false, (claim_scan_retry id k at s).1)
unfolding claim_scan_retry
claim_scan_retry-once id k at later s h =
    elim (Option-cases (find_first (is_claimable id k) s.versions)) [
      | inl e ↦ absurd (false≢true (rw e at h))
      | inr (v, e) ↦
          let (_, m) = find_first_sound (is_claimable id k) s.versions v e in
          rw e (
            ap (λ o. update_found (claimed k later) o (update_found (claimed k at) (some v) s).1)
              (subst
                (λ n.
                  find_first (is_claimable id k) (update_version n (claimed k at) s.versions)
                  ≡ none)
                (sym (claimable_id id k v m)) (none_left id k at s.versions)))
    ]
