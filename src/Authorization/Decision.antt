-- ===== src/Authorization/Decision.antt =====
-- `Resolve` of server/internal/service/authorization/service.go beside the independent reading of
-- its rules.
use file_share_manager.Prelude.{
  ℕ, zero, suc, ◌≤◌, ◌≡◌, ◌↔◌, inl, inr, refl, true, false≢true, List, [], ◌∷◌, arith, length,
  Bool-cases,
}
use file_share_manager.Authorization.{
  AccessLevel, user, group, EffectiveAclEntry, is_nonempty, subject_entries, take_run, drop_run,
  resolve_from, resolve,
}
use file_share_manager.Authorization.Runs.{IsByDepth, IsByDepth-drop_run, length-drop_run}
use file_share_manager.Authorization.Granted.{IsGranted}
use file_share_manager.Authorization.Nearest.{
  IsGranted-here, IsGranted-later, user_decides, group_decides, unnamed_depth, later-IsGranted,
  unnamed-away,
}

module _ (r : AccessLevel) where
  resolve_from_sound :
      (fuel : ℕ) (es : List EffectiveAclEntry)
      → IsByDepth es
      → resolve_from fuel es r ≡ true
      → IsGranted es r
  unfolding resolve_from
  resolve_from_sound zero es s h = absurd (false≢true h)
  resolve_from_sound (suc fuel) [] s h = absurd (false≢true h)
  resolve_from_sound (suc fuel) (e ∷ es) s h =
      elim (Bool-cases (is_nonempty (subject_entries (e ∷ take_run e.depth es) user))) [
        | inl u ↦ IsGranted-here e es s r user (inl refl) (λ k. cc) (rw u at h)
        | inr u ↦
            elim (Bool-cases (is_nonempty (subject_entries (e ∷ take_run e.depth es) group))) [
              | inl g ↦
                  IsGranted-here e es s r group (inr refl)
                    (λ _ x i f. unnamed-away e es s r user x u i f) (rw (u, g) at h)
              | inr g ↦ IsGranted-later e es s r u g (
                  resolve_from_sound fuel (drop_run e.depth es) (IsByDepth-drop_run e.depth es s.1)
                    (rw (u, g) at h))
            ]
      ]

  resolve_from_complete :
      (fuel : ℕ) (es : List EffectiveAclEntry)
      → length es ≤ fuel
      → IsByDepth es
      → IsGranted es r
      → resolve_from fuel es r ≡ true
  unfolding resolve_from
  resolve_from_complete zero [] l s g = absurd g.listed
  resolve_from_complete zero (e ∷ es) l s g = absurd (omega arith)
  resolve_from_complete (suc fuel) [] l s g = absurd g.listed
  resolve_from_complete (suc fuel) (e ∷ es) l s g =
      elim (Bool-cases (is_nonempty (subject_entries (e ∷ take_run e.depth es) user))) [
        | inl u ↦ rw u (user_decides e es s r g u)
        | inr u ↦
            elim (Bool-cases (is_nonempty (subject_entries (e ∷ take_run e.depth es) group))) [
              | inl k ↦ rw (u, k) (group_decides e es s r g u k)
              | inr k ↦
                  rw (u, k)
                    (resolve_from_complete fuel (drop_run e.depth es)
                      (omega (arith, length-drop_run e.depth es))
                      (IsByDepth-drop_run e.depth es s.1)
                      (later-IsGranted e es s r g (unnamed_depth e es s r g u k)))
            ]
      ]

-- For entries in the order of the query, `Resolve` answers yes exactly when the nearest depth that
-- names the user or one of the groups grants the level: the entries for the user count before those
-- for groups, one denial refuses, and otherwise an entry that allows a level at least as high is
-- needed.
pub resolve_iff :
    (es : List EffectiveAclEntry) (r : AccessLevel)
    → IsByDepth es
    → (resolve es r ≡ true) ↔ IsGranted es r
unfolding resolve
resolve_iff es r s =
    (resolve_from_sound r (length es) es s, resolve_from_complete r (length es) es (omega arith) s)
