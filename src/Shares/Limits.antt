-- ===== src/Shares/Limits.antt =====
-- The guards of server/internal/dao/share.go: the filters of the list, the limit of downloads.
pub mod Rows
pub mod Counts
use Prim.Native.String.{String}
use file_share_manager.Prelude.{
  ℕ, suc, ◌+◌, ◌≤◌, ◌<◌, ◌==◌, ltb, leb, Bool, true, false, ◌&&◌, ◌||◌, not, false≢true, List, [],
  ◌∷◌, Option, none, some, ◌≡◌, refl, sym, ap, ◌∙◌, ◌⊎◌, inl, inr, ◌↔◌, Result, ok, err, ◌>>=◌,
  ◌>>◌, guard, or_fail, >>=-eq-ok, guard-eq-ok, or_fail-eq-ok, In, find_first, find_first_sound,
  update_where, Bool-cases, eq_of_==, arith,
}
use file_share_manager.Files.Model.{ScanStatus, clean}
use file_share_manager.Shares.Store.{
  is_active, is_revoked, is_expired, share_expired, share_limit, ShareStatus, active, revoked,
  expired, Share, ShareItem, Store, Error, ShareFilter, active_shares, revoked_shares,
  expired_shares, exhausted_shares, matches, below_limit, get_by_token_hash, revoke, expire, is_due,
}
use file_share_manager.Shares.Downloads.{
  check_status, check_share, claim_download, share_item_safe_for_external_download, find_item,
  count_download,
}

-- The three tests, in their order.
passes :
    (status : ShareStatus) (b c : Bool)
    → (is_active status && b && c ≡ true)
      ↔ ((check_status status >> (guard b share_expired >> guard c share_limit)) ≡ ok tt)
unfolding check_status
passes active true true = (λ h. refl, λ h. refl)
passes active true false = (λ h. absurd (false≢true h), λ h. cc)
passes active false c = (λ h. absurd (false≢true h), λ h. cc)
passes revoked b c = (λ h. absurd (false≢true h), λ h. cc)
passes expired b c = (λ h. absurd (false≢true h), λ h. cc)

-- A share is listed as active exactly when the tests of a download let it pass.
pub matches-check_share :
    (now : ℕ) (x : Share) → (matches active_shares now x ≡ true) ↔ (check_share now x ≡ ok tt)
unfolding matches check_share
matches-check_share now x =
    passes x.status (ltb now x.expires_at) (below_limit x.max_downloads x.download_count)

-- A later time is not an earlier one.
leb-not-ltb : (a b : ℕ) → leb a b ≡ not (ltb b a)
leb-not-ltb a b = ground arith

-- The filters, of a status and of what the share's time and count say.
abbrev listed : ShareFilter → ShareStatus → Bool → Bool → Bool
listed active_shares status before below = is_active status && before && below
listed revoked_shares status before below = is_revoked status
listed expired_shares status before below =
    not (is_revoked status) && (is_expired status || not before)
listed exhausted_shares status before below = is_active status && before && not below

matches-listed :
    (f : ShareFilter) (now : ℕ) (x : Share)
    → matches f now x
      ≡ listed f x.status (ltb now x.expires_at) (below_limit x.max_downloads x.download_count)
unfolding matches
matches-listed active_shares now x = refl
matches-listed revoked_shares now x = refl
matches-listed expired_shares now x =
    ap (λ b. not (is_revoked x.status) && (is_expired x.status || b)) (leb-not-ltb x.expires_at now)
matches-listed exhausted_shares now x = refl

-- The filter of a share.
abbrev filter_of : ShareStatus → Bool → Bool → ShareFilter
filter_of active true true = active_shares
filter_of active true false = exhausted_shares
filter_of active false below = expired_shares
filter_of revoked before below = revoked_shares
filter_of expired before below = expired_shares

listed-filter_of :
    (status : ShareStatus) (before below : Bool)
    → listed (filter_of status before below) status before below ≡ true
listed-filter_of active true true = refl
listed-filter_of active true false = refl
listed-filter_of active false below = refl
listed-filter_of revoked before below = refl
listed-filter_of expired before below = refl

listed-only :
    (g : ShareFilter) (status : ShareStatus) (before below : Bool)
    → listed g status before below ≡ true
    → g ≡ filter_of status before below
listed-only active_shares active true true h = refl
listed-only expired_shares active false below h = refl
listed-only revoked_shares revoked before below h = refl
listed-only expired_shares expired before below h = refl
listed-only exhausted_shares active true false h = refl
listed-only _ _ _ _ h = absurd (false≢true h)

-- Every share is listed under exactly one of the four filters.
pub matches_unique :
    (now : ℕ) (x : Share)
    → (f : ShareFilter) × (matches f now x ≡ true)
      × ((g : ShareFilter) → matches g now x ≡ true → g ≡ f)
matches_unique now x =
    let before = ltb now x.expires_at in
    let below = below_limit x.max_downloads x.download_count in
    (
      filter_of x.status before below,
      matches-listed _ now x ∙ listed-filter_of x.status before below,
      λ g h. listed-only g x.status before below (sym (matches-listed g now x) ∙ h),
    )
